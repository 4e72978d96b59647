-- ===== src/FpgaUart/Reads.antt =====
-- What the receive thread makes of its reads is what its parser makes of the whole stream.
use mathlib.Core.List.{append_assoc, append-nil}
use dpb_s_mgmt.Base.{
  ℕ, suc, ◌+◌, ◌≤◌, ◌<◌, ◌≡◌, refl, sym, ◌∙◌, false, some, List, [], ◌∷◌, ◌++◌, length, ltb, arith,
  AreBytes, length-append, concat, All,
}
use dpb_s_mgmt.FpgaUart.{Delivery, step, process, receive, receive_all}
use dpb_s_mgmt.FpgaUart.Split.{process-ends, process-fuel, process-split}

-- Every read finds room in the buffer of 2048 bytes behind what the reads before have left there.
abbrev pub HasRoom : List ℕ → List (List ℕ) → Type 0
HasRoom held [] = Unit {0}
HasRoom held (bytes ∷ reads) =
    (length held + length bytes ≤ 2048)
    × ((found : List Delivery) (left : List ℕ)
        → receive held bytes ≡ some (found, left)
        → HasRoom left reads)

receive-process :
    (held bytes : List ℕ)
    → length held + length bytes ≤ 2048
    → receive held bytes ≡ process 2049 (held ++ bytes)
unfolding receive
receive-process held bytes h =
    let small : ltb 2048 (length bytes) ≡ false = ground arith in
    let fits : ltb 2048 (length held + length bytes) ≡ false = ground arith in
    rw (receive, small, fits) refl

-- The same behind bytes in which `found` has been found and `held` is left.
receive_all-behind :
    (reads : List (List ℕ)) (n k : ℕ) (before : List ℕ) {found : List Delivery} {held : List ℕ}
    → process n before ≡ some (found, held)
    → All AreBytes reads
    → HasRoom held reads
    → length before + length (concat reads) < k
    → (r : List Delivery × List ℕ) × (receive_all held reads ≡ some r)
      × (process k (before ++ concat reads) ≡ some (found ++ r.0, r.1))
unfolding receive_all
receive_all-behind [] n k before {found} {held} e bytes room h = (
  ([], held),
  refl,
  rw (append-nil before, append-nil found)
      (process-fuel n k before {r = (found, held)} e (omega arith)),
)
receive_all-behind (x ∷ reads) n k before {found} {held} e bytes room h =
    let joined = length-append held x in
    let behind = length-append before x in
    let sum = length-append x (concat reads) in
    let ((more, left), ends, shorter) = process-ends 2049 (held ++ x) (omega (arith, room.0)) in
    let read : receive held x ≡ some (more, left) = receive-process held x room.0 ∙ ends in
    let both =
      process-split n 2049 (suc (length before + length x)) before x {ds = found} {ds' = more}
        {c = held} {r = left} bytes.0 e ends (omega arith) in
    let ((later, rest), all, whole) =
      receive_all-behind reads (suc (length before + length x)) k (before ++ x)
        {found = found ++ more} {held = left} both bytes.1 (room.1 more left read) (omega arith) in
    (
      (more ++ later, rest),
      rw (receive_all, read) (rw all refl),
      rw (sym (append_assoc before x (concat reads)), sym (append_assoc found more later)) whole,
    )

-- Where each read finds room in the frame buffer, behind what is left there of the reads before, the
-- receive thread finds in its reads, one after the other, the frames, in their order, and the rest that its
-- parser finds in the whole stream at once: how the stream is cut into reads does not matter.
pub receive_all-whole :
    (reads : List (List ℕ)) (k : ℕ)
    → All AreBytes reads
    → HasRoom [] reads
    → length (concat reads) < k
    → (r : List Delivery × List ℕ) × (receive_all [] reads ≡ some r)
      × (process k (concat reads) ≡ some r)
unfolding process step
receive_all-whole reads k bytes room h =
    receive_all-behind reads 1 k [] {found = []} {held = []} refl bytes room (omega arith)
