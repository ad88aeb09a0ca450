-- ===== src/Server/Deploy/Keyed.antt =====
-- Each deployed app is stored once, under its name, whatever is written to the table.
use nnel.Base.{
  ◌≡◌, refl, inl, inr, Bool, some, Bool-cases, List, [], ◌∷◌, Text, text_eqb, text_eqb_iff, text_eq,
  lookup, insert, delete, lookup-insert, lookup-delete, arith,
}
use nnel.Server.State.{DeployedApp}
use nnel.Server.Deploy.{PersistedApp, restored, load_apps}
use nnel.Server.Deploy.Persistence.{IsKeyed}

pub name_of_lookup :
    (k : Text) (apps : List (Text × DeployedApp)) (app : DeployedApp)
    → IsKeyed apps
    → lookup k apps ≡ some app
    → app.name ≡ k
unfolding lookup
name_of_lookup k [] app keyed h = absurd (cc)
name_of_lookup k ((j, a) ∷ apps) app (named, once, keyed) h = elim (Bool-cases (text_eqb j k)) [
  | inl hit ↦ ground (arith, text_eqb_iff j k)
  | inr miss ↦ name_of_lookup k apps app keyed (ground arith)
]

pub insert-IsKeyed :
    (k : Text) (app : DeployedApp) (apps : List (Text × DeployedApp))
    → app.name ≡ k
    → IsKeyed apps
    → IsKeyed (insert k app apps)
unfolding insert
insert-IsKeyed k app [] named keyed = (named, unfold lookup in refl, tt)
insert-IsKeyed k app ((j, a) ∷ apps) named (named_j, once, keyed) =
    elim (Bool-cases (text_eqb j k)) [
      | inl hit ↦ rw hit (named, rw (← ((text_eqb_iff j k).0 hit)) once, keyed)
      | inr miss ↦ rw miss (
        named_j,
        ground (arith, lookup-insert k j app apps, text_eqb_iff k j, text_eqb_iff j k),
        insert-IsKeyed k app apps named keyed,
      )
    ]

pub delete-IsKeyed :
    (k : Text) (apps : List (Text × DeployedApp)) → IsKeyed apps → IsKeyed (delete k apps)
unfolding delete
delete-IsKeyed k [] keyed = tt
delete-IsKeyed k ((j, a) ∷ apps) (named, once, keyed) = elim (Bool-cases (text_eqb j k)) [
  | inl hit ↦ rw hit (delete-IsKeyed k apps keyed)
  | inr miss ↦ rw miss (named, ground (arith, lookup-delete k j apps), delete-IsKeyed k apps keyed)
]

pub load_apps-IsKeyed :
    (is_running : Text → Bool) (saved : List PersistedApp) (apps : List (Text × DeployedApp))
    → IsKeyed apps
    → IsKeyed (load_apps is_running saved apps)
unfolding load_apps
load_apps-IsKeyed is_running [] apps keyed = keyed
load_apps-IsKeyed is_running (pa ∷ saved) apps keyed = elim (Bool-cases (is_running pa.name)) [
  | inl up ↦
      rw up (
        load_apps-IsKeyed is_running saved _ (insert-IsKeyed pa.name (restored pa) apps refl keyed))
  | inr down ↦ rw down (load_apps-IsKeyed is_running saved apps keyed)
]
