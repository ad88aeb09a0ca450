-- ===== src/Server/Build/Laws.antt =====
-- What the dashboard sees of a build's log.
use nnel.Base.{
  take-append-drop, ◌-◌, ◌≡◌, refl, ◌∙◌, inl, inr, Bool-cases, if◌then◌else◌, List, [], ◌∷◌, ◌++◌,
  append-nil, append_assoc, Text, length, length-drop, take, ltb, sym, arith,
}
use nnel.Server.State.{PendingBuild}
use nnel.Server.Build.{append_line, append_lines, snapshot}

lines-append_lines :
    (lines : List Text) (b : PendingBuild) → (append_lines lines b).lines ≡ b.lines ++ lines
unfolding append_lines
lines-append_lines [] b = sym (append-nil b.lines)
lines-append_lines (line ∷ lines) b =
    lines-append_lines lines (append_line line b) ∙ append_assoc b.lines (line ∷ []) lines

-- After a build has printed its lines the snapshot is the end of the whole log: all of it up to 50
-- lines, and else exactly the last 50, in their order.
pub snapshot-append_lines :
    (b : PendingBuild) (lines : List Text)
    → let (shown, _, _) = snapshot (append_lines lines b) in
      (front : List Text) × (front ++ shown ≡ b.lines ++ lines)
      × (length shown
          ≡ (if ltb 50 (length (b.lines ++ lines)) then 50 else length (b.lines ++ lines)))
unfolding snapshot
snapshot-append_lines b lines =
    let whole = b.lines ++ lines in
    rw (lines-append_lines lines b) (elim (Bool-cases (ltb 50 (length whole))) [
      | inl long ↦ rw long (
        take (length whole - 50) whole,
        take-append-drop (length whole - 50) whole,
        ground (arith, length-drop (length whole - 50) whole),
      )
      | inr short ↦ rw short ([], refl, refl)
    ])
