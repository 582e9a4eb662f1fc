-- ===== src/Rtp/Writing.antt =====
-- `Write`: the loop that gives the bytes of a packet to the tuner, and what `rtpDump` gives it.
use mathlib.Core.List.{append_assoc}
use satip_client.Base.{
  ℕ, ◌≡◌, refl, ◌∙◌, ap, ◌↔◌, ◌==◌, if◌then◌else◌, List, [], ◌∷◌, ◌++◌, take, drop,
  take-append-drop, if-both,
}

-- What `write` does: it is interrupted (`EINTR`), it fails, or it takes some bytes.
pub data Outcome : Type 0 where
  interrupted failed : Outcome
  accepted : ℕ → Outcome

-- The returns of `Write`: the size, or -1. `write_pending` stands for a call that still waits.
pub data WriteResult : Type 0 where
  write_complete write_broken write_pending : WriteResult

-- A call with the bytes written and those left.
pub record Written : Type 0 where
  pub result : WriteResult
  pub written : List ℕ
  pub left : List ℕ

-- The loop, from the bytes written and those left on; one outcome for each call of `write`.
unfoldable pub write_loop : List Outcome → List ℕ → List ℕ → Written
write_loop outcomes written [] = record { result = write_complete; written = written; left = [] }
write_loop [] written (b ∷ left) = record {
  result = write_pending;
  written = written;
  left = b ∷ left;
}
write_loop (interrupted ∷ outcomes) written (b ∷ left) = write_loop outcomes written (b ∷ left)
write_loop (failed ∷ outcomes) written (b ∷ left) = record {
  result = write_broken;
  written = written;
  left = b ∷ left;
}
write_loop (accepted n ∷ outcomes) written (b ∷ left) =
    let rest = write_loop outcomes (written ++ take n (b ∷ left)) (drop n (b ∷ left)) in
    if n == 0 then record { result = write_broken; written = written; left = b ∷ left } else rest

-- `Write`
unfoldable pub write : List Outcome → List ℕ → Written
unfolding write_loop
write outcomes buffer = write_loop outcomes [] buffer

record IsWrite (buffer : List ℕ) (w : Written) : Type 0 where
  spells : w.written ++ w.left ≡ buffer
  completed : w.result ≡ write_complete → w.left ≡ []
  emptied : w.left ≡ [] → w.result ≡ write_complete

write_loop-IsWrite :
    (outcomes : List Outcome) (written left : List ℕ)
    → IsWrite (written ++ left) (write_loop outcomes written left)
unfolding write_loop
write_loop-IsWrite outcomes written [] = record {
  spells = refl;
  completed = λ h. refl;
  emptied = λ h. refl;
}
write_loop-IsWrite [] written (b ∷ left) = record {
  spells = refl;
  completed = λ h. cc;
  emptied = λ h. cc;
}
write_loop-IsWrite (interrupted ∷ outcomes) written (b ∷ left) =
    write_loop-IsWrite outcomes written (b ∷ left)
write_loop-IsWrite (failed ∷ outcomes) written (b ∷ left) = record {
  spells = refl;
  completed = λ h. cc;
  emptied = λ h. cc;
}
write_loop-IsWrite (accepted n ∷ outcomes) written (b ∷ left) =
    let chunk = take n (b ∷ left) in
    let rest = drop n (b ∷ left) in
    let whole : (written ++ chunk) ++ rest ≡ written ++ b ∷ left =
      append_assoc written chunk rest
      ∙ ap (λ (l : List ℕ). written ++ l) (take-append-drop n (b ∷ left)) in
    let next = write_loop-IsWrite outcomes (written ++ chunk) rest in
    if-both (IsWrite (written ++ b ∷ left)) (n == 0) _ _
      (record { spells = refl; completed = λ h. cc; emptied = λ h. cc })
      (record { spells = next.spells ∙ whole; completed = next.completed; emptied = next.emptied })

-- `Write` gives the tuner the bytes of the buffer in order, none twice and none left out, however the
-- calls of `write` split them; it returns the size exactly if all are written.
pub write-spells :
    (outcomes : List Outcome) (buffer : List ℕ)
    → let w = write outcomes buffer in
      (w.written ++ w.left ≡ buffer) × ((w.result ≡ write_complete) ↔ (w.left ≡ []))
unfolding write
write-spells outcomes buffer =
    let w = write_loop-IsWrite outcomes [] buffer in (w.spells, (w.completed, w.emptied))
