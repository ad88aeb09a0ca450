-- ===== src/Server/Admin/Paths/Laws.antt =====
-- The dashboard's paths for one tunnel reach its handlers.
use nnel.Base.{
  ◌≡◌, refl, ◌∙◌, ap, subst, true, false, some, [], ◌∷◌, ◌++◌, Text, text, nat_eqb, contains,
  has_prefix, has_suffix, has_suffix-append, trim_suffix, length, length-append, append_assoc,
  take-append, Bool-cases, Option-cases, inl, inr, ◌-◌, arith,
}
use nnel.Server.Registry.{is_some}
use nnel.Server.Admin.Paths.{
  patch, delete, set_dir, remove_tunnel, split_once, contains_text, tunnel_parts, tunnel_routes,
  handle_admin,
}

abbrev pub tunnel_path : Text → Text → Text
tunnel_path id name = text "/clients/" ++ (id ++ (text "/tunnels/" ++ name))

split_once_id :
    (id name : Text)
    → contains b'/' id ≡ false
    → split_once (text "/tunnels/") (id ++ (text "/tunnels/" ++ name)) ≡ some (id, name)
unfolding split_once
split_once_id [] name h = refl
split_once_id (c ∷ id) name h =
    let other : nat_eqb c b'/' ≡ false = ground arith in
    let later : contains b'/' id ≡ false = ground arith in
    rw (other, split_once_id id name later) refl

contains_text-append :
    (at front s : Text) → contains_text s at ≡ true → contains_text (front ++ s) at ≡ true
unfolding split_once
contains_text-append at [] s h = h
contains_text-append at (c ∷ front) s h = elim (Bool-cases (has_prefix (c ∷ (front ++ s)) at)) [
  | inl here ↦ rw (here, is_some) refl
  | inr not_here ↦ elim (Option-cases (split_once at (front ++ s))) [
    | inl nowhere ↦
        let later : contains_text (front ++ s) at ≡ true = contains_text-append at front s h in
        absurd (ground (arith, later, nowhere))
    | inr (parts, found) ↦ rw (not_here, found, is_some) refl
  ]
]

-- The three tests of a tunnel's path, and its parts.
patch_route :
    (path id rest : Text)
    → has_prefix path (text "/clients/") ≡ true
    → contains_text path (text "/tunnels/") ≡ true
    → has_suffix path (text "/dir") ≡ true
    → tunnel_parts path ≡ some (id, rest)
    → tunnel_routes patch path ≡ set_dir id (trim_suffix rest (text "/dir"))
patch_route path id rest starts has ends parts = rw (parts, starts, has, ends) refl

delete_route :
    (path id rest : Text)
    → has_prefix path (text "/clients/") ≡ true
    → contains_text path (text "/tunnels/") ≡ true
    → tunnel_parts path ≡ some (id, rest)
    → tunnel_routes delete path ≡ remove_tunnel id rest
delete_route path id rest starts has parts = rw (parts, starts, has) refl

tunnel_parts-path :
    (id name : Text)
    → contains b'/' id ≡ false
    → tunnel_parts (tunnel_path id name) ≡ some (id, name)
tunnel_parts-path id name h = split_once_id id name h

contains_text-path :
    (id name : Text)
    → contains b'/' id ≡ false
    → contains_text (tunnel_path id name) (text "/tunnels/") ≡ true
contains_text-path id name h =
    contains_text-append (text "/tunnels/") (text "/clients/") (id ++ (text "/tunnels/" ++ name))
      (rw (split_once_id id name h, is_some) refl)

has_suffix-path :
    (id name : Text) → has_suffix (tunnel_path id (name ++ text "/dir")) (text "/dir") ≡ true
has_suffix-path id name =
    let front : Text = text "/clients/" ++ (id ++ (text "/tunnels/" ++ name)) in
    let whole : front ++ text "/dir" ≡ tunnel_path id (name ++ text "/dir") =
      ap (λ s. text "/clients/" ++ s) (append_assoc id (text "/tunnels/" ++ name) (text "/dir")) in
    subst (λ s. has_suffix s (text "/dir") ≡ true) whole (has_suffix-append front (text "/dir"))

trim_suffix-append : (name end : Text) → trim_suffix (name ++ end) end ≡ name
trim_suffix-append name end =
    let front : length (name ++ end) - length end ≡ length name =
      omega (arith, length-append name end) in
    rw (has_suffix-append name end, front) (take-append name end)

-- The path of a tunnel, of a client whose id has no slash, selects the tunnel's handlers with that id
-- and that name, whatever the name: DELETE removes the tunnel, and PATCH on its /dir sets the
-- directory.
pub handle_admin-tunnel_path :
    (id name : Text)
    → contains b'/' id ≡ false
    → (handle_admin delete (tunnel_path id name) ≡ remove_tunnel id name)
      × (handle_admin patch (tunnel_path id (name ++ text "/dir")) ≡ set_dir id name)
unfolding handle_admin
handle_admin-tunnel_path id name h =
    let whole = name ++ text "/dir" in
    (
      delete_route (tunnel_path id name) id name refl (contains_text-path id name h)
          (tunnel_parts-path id name h),
      patch_route (tunnel_path id whole) id whole refl (contains_text-path id whole h)
            (has_suffix-path id name) (tunnel_parts-path id whole h)
          ∙ ap (set_dir id) (trim_suffix-append name (text "/dir")),
    )
