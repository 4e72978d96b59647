-- ===== src/Finder/Stream.antt =====
-- `pkfinderParse` on the ring: which bytes it leaves there, and what the callback has seen.
use dpb_s_mgmt.Base.{
  ℕ, suc, ◌^◌, ◌≤◌, ◌<◌, ◌≡◌, ◌≢◌, refl, ◌∙◌, Bool, false, Option, some, List, arith, length, drop,
  AreBytes, take_all, leb, if◌then◌else◌, add32, sub32, ltb, Bool-cases, inl, inr,
}
use dpb_s_mgmt.Ring.{RBuf, get, remove}
use dpb_s_mgmt.Ring.Contents.{IsValid, contents, n_bytes-eq-length}
use dpb_s_mgmt.Ring.Read.{get-contents, remove-Removed}
use dpb_s_mgmt.Finder.{
  PkFinder, Verdict, failed, no_head, incomplete, complete, Scan, Out, find, act, round, parse_loop,
  proceed, parse, finish, finished,
}
use dpb_s_mgmt.Finder.Packet.{IsSane}
use dpb_s_mgmt.Finder.Parse.{Keeps, parse_loop-Ends}

module _ {S : Type 0} (pf : PkFinder) (chk_exec : S → List ℕ → S × Bool) where
  abbrev start : S → Scan S
  start e = record { fnd_index = 0; pk_pos = 0; pk_len = 0; pk_fres = false; exec = e }

  -- The data that the loop sees are the contents of the ring, if the parse buffer holds them all.
  get_all :
      {r : RBuf} (n : ℕ) → IsValid r → n < 2 ^ 32 → length (contents r) ≤ n → get r n ≡ contents r
  get_all n v s le = get-contents n v s ∙ take_all n _ le

  -- What a call of `pkfinderParse` has done to the ring `r`, if the callback keeps `P`.
  pub record Parsed (r : RBuf) (P : ℕ → Bool → S → Type 0) (o : Option (RBuf × S × Bool))
      : Type 0 where
    pub ring : RBuf
    pub exec : S
    pub ok : Bool
    pub gone : ℕ
    pub returns : o ≡ some (ring, exec, ok)
    pub within : gone ≤ length (contents r)
    pub rest : contents ring ≡ drop gone (contents r)
    pub valid : IsValid ring
    pub len_kept : ring.len ≡ r.len
    pub kept : P gone ok exec

  -- `pkfinderParse` on a valid ring, with a finder whose sums cannot wrap and a parse buffer that
  -- holds all the ring's bytes, returns (fuel above their number is enough for its loop); it removes
  -- a prefix of the contents and nothing else; and whatever the callback keeps for packets that lie
  -- in the contents, begin with the header and start behind the packets before them, holds of its
  -- state, of the returned status and of the removed prefix.
  pub parse-Parsed :
      (P : ℕ → Bool → S → Type 0) {r : RBuf} (fuel n : ℕ) (e : S)
      → Keeps pf chk_exec (contents r) P
      → IsSane pf
      → IsValid r
      → AreBytes (contents r)
      → r.len < 2 ^ 31
      → n < 2 ^ 32
      → length (contents r) ≤ n
      → length (contents r) < fuel
      → P 0 false e
      → Parsed r P (parse pf chk_exec fuel r n e)
  unfolding parse finished finish
  parse-Parsed P {r} fuel n e keeps sane v bytes small n_small all enough p =
      let ends =
        parse_loop-Ends pf chk_exec (contents r) {P = P} keeps sane bytes
          (omega (arith, n_bytes-eq-length v)) fuel n (start e) (omega arith) (omega arith) p in
      let s : Scan S = ends.0 in
      let m = remove-Removed {r = r} s.fnd_index v (omega (arith, ends.3, n_bytes-eq-length v)) in
      record {
        ring = (remove r s.fnd_index).0;
        exec = s.exec;
        ok = s.pk_fres;
        gone = s.fnd_index;
        returns = rw (get_all n v n_small all, ends.1, finished);
        within = ends.3;
        rest = m.bytes;
        valid = m.valid;
        len_kept = m.len_kept;
        kept = ends.4;
      }

  act-ne_complete :
      (r : RBuf) (n : ℕ) (s : Scan S) (dat : List ℕ) (verdict : Verdict) (pos len : ℕ)
      → s.pk_fres ≡ false
      → verdict ≢ complete
      → (r' : RBuf) × ((rest : Scan S → Option (Out S))
          → finished pf chk_exec r (proceed rest (act pf chk_exec dat n s verdict pos len))
            ≡ some (r', s.exec, false))
  unfolding act proceed finished finish
  act-ne_complete r n s dat failed pos len f ne = (r, λ rest. refl)
  act-ne_complete r n s dat no_head pos len f ne =
      ((remove r (sub32 (length dat) pf.head_len)).0, λ rest. rw f)
  act-ne_complete r n s dat incomplete pos len f ne = (
    (remove r
        (if ltb n len then add32 (add32 s.fnd_index pos) pf.head_len else add32 s.fnd_index pos)).0,
    λ rest. rw f,
  )
  act-ne_complete r n s dat complete pos len f ne = absurd (ne refl)

  -- Where the first look at a valid ring's bytes finds no complete packet, the callback is not
  -- called and `pkfinderParse` returns ERROR, also if a packet has just begun to arrive.
  pub parse-ne_complete :
      {r : RBuf} (fuel n : ℕ) (e : S)
      → IsValid r
      → n < 2 ^ 32
      → length (contents r) ≤ n
      → (find pf (contents r) 0 0).verdict ≢ complete
      → (r' : RBuf) × (parse pf chk_exec (suc fuel) r n e ≡ some (r', e, false))
  unfolding parse parse_loop round finished finish
  parse-ne_complete {r} fuel n e v n_small all ne =
      let f = find pf (contents r) 0 0 in
      let a = act-ne_complete r n (start e) (contents r) f.verdict f.pos f.len refl ne in
      elim (Bool-cases (leb (add32 0 pf.head_len) (length (contents r)))) [
        | inl fits ↦ (
          a.0,
          rw (get_all n v n_small all, fits, finished)
              (a.1 (parse_loop pf chk_exec fuel (contents r) n)),
        )
        | inr out ↦ ((remove r 0).0, rw (get_all n v n_small all, out))
      ]
