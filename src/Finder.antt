-- ===== src/Finder.antt =====
-- s_band_antenna_mgmt/src/pkfinder.c and include/pkfinder.h: looking for packets in a byte stream.
-- `buf` is the list of the bytes that the caller passes with their number `len`. The callback
-- `chkExec` is a parameter: a function of a state of its own and of the packet.
pub mod Search
pub mod Packet
pub mod Parse
pub mod Stream
mod Tests
use dpb_s_mgmt.Base.{
  ℕ, zero, suc, ◌+◌, ◌-◌, ◌*◌, ◌%◌, ◌^◌, bit_and, bit_or, Bool, true, false, Option, none, some,
  List, [], ◌∷◌, length, take, drop, get_or, ltb, leb, ◌==◌, if◌then◌else◌, add32, sub32,
}
use dpb_s_mgmt.Ring.{RBuf, get, remove}

-- `PKFINDER`. `is_pk_fix_len` is the test `isPkFixLen==TRUE`, `little_end` is
-- `pkLenEnd==ENDIAN_LITTLE`.
pub record PkFinder : Type 0 where
  pub head_buf : List ℕ
  pub head_len : ℕ
  pub head_masks : List ℕ
  pub is_pk_fix_len : Bool
  pub pk_fix_len : ℕ
  pub pk_len_pos : ℕ
  pub pk_len_len : ℕ
  pub pk_len_first_msk : ℕ
  pub little_end : Bool
  pub pk_len_add : ℕ

-- The results -1, 0, 1 and 2 of `pkfinderFind`.
pub data Verdict : Type 0 where
  failed no_head incomplete complete : Verdict

-- What `pkfinderFind` returns, and `*fndPos` and `*fndLen` after it.
pub record Found : Type 0 where
  pub verdict : Verdict
  pub pos : ℕ
  pub len : ℕ

-- The inner loop over `j`, with the rounds that are left: the header matches at `i`.
unfoldable pub head_from : PkFinder → List ℕ → ℕ → ℕ → ℕ → Bool
head_from pf buf i j zero = true
head_from pf buf i j (suc rounds) =
    let rest = head_from pf buf i (j + 1) rounds in
    if bit_and (get_or buf (i + j) 0) (get_or pf.head_masks j 0) == get_or pf.head_buf j 0
    then rest
    else false

unfoldable pub head_at : PkFinder → List ℕ → ℕ → Bool
head_at pf buf i = head_from pf buf i 0 pf.head_len

-- The outer loop over `i`, with the rounds that are left: the first place of the header.
unfoldable pub search_head : PkFinder → List ℕ → ℕ → ℕ → Option ℕ
search_head pf buf i zero = none
search_head pf buf i (suc rounds) =
    let rest = search_head pf buf (i + 1) rounds in if head_at pf buf i then some i else rest

-- Byte `i` of `pkLenArr`, for `i` below `pkLenLen`; the first one is masked.
unfoldable pub len_byte : PkFinder → List ℕ → ℕ → ℕ → ℕ
len_byte pf buf pos i =
    let b = get_or buf (pos + pf.pk_len_pos + i) 0 in
    if i == 0 then bit_and b pf.pk_len_first_msk else b

-- `for (i=0;i<pkLenLen;++i) pkLen|=pkLenArr[i]<<(i*8);`, from round `i` on.
pub little_len : PkFinder → List ℕ → ℕ → ℕ → ℕ → ℕ → ℕ
little_len pf buf pos acc i zero = acc
little_len pf buf pos acc i (suc rounds) =
    little_len pf buf pos (bit_or acc (len_byte pf buf pos i * 2 ^ (8 * i))) (i + 1) rounds

-- The same with `pkLenArr[pkLenLen-i-1]`.
unfoldable pub big_len : PkFinder → List ℕ → ℕ → ℕ → ℕ → ℕ → ℕ
big_len pf buf pos acc i zero = acc
big_len pf buf pos acc i (suc rounds) =
    big_len pf buf pos (bit_or acc (len_byte pf buf pos (pf.pk_len_len - i - 1) * 2 ^ (8 * i)))
      (i + 1) rounds

unfoldable pub field_len : PkFinder → List ℕ → ℕ → ℕ
unfolding little_len big_len
field_len pf buf pos =
    if pf.little_end
    then little_len pf buf pos 0 0 pf.pk_len_len
    else big_len pf buf pos 0 0 pf.pk_len_len

-- Part 2 of `pkfinderFind`, where the header is at `pos`: is the packet there as a whole?
unfoldable pub measure : PkFinder → List ℕ → ℕ → ℕ → Found
measure pf buf pos old_len =
    if pf.is_pk_fix_len
    then (if ltb (length buf) (add32 pos pf.pk_fix_len)
        then record { verdict = incomplete; pos = pos; len = old_len }
        else record { verdict = complete; pos = pos; len = pf.pk_fix_len })
    else if ltb 4 pf.pk_len_len
    then record { verdict = failed; pos = pos; len = old_len }
    else if ltb (length buf) (add32 (add32 pos pf.pk_len_pos) pf.pk_len_len)
    then record { verdict = incomplete; pos = pos; len = old_len }
    else (let pk_len = field_len pf buf pos in
        if ltb (length buf) (add32 (add32 pos pk_len) pf.pk_len_add)
        then record { verdict = incomplete; pos = pos; len = add32 pk_len pf.pk_len_add }
        else record { verdict = complete; pos = pos; len = add32 pk_len pf.pk_len_add })

unfoldable pub measure_found : PkFinder → List ℕ → ℕ → ℕ → Option ℕ → Found
measure_found pf buf old_pos old_len none = record {
  verdict = no_head;
  pos = old_pos;
  len = old_len;
}
measure_found pf buf old_pos old_len (some pos) = measure pf buf pos old_len

-- `pkfinderFind`; `old_pos` and `old_len` are what `*fndPos` and `*fndLen` hold before the call.
unfoldable pub find : PkFinder → List ℕ → ℕ → ℕ → Found
unfolding measure_found
find pf buf old_pos old_len =
    measure_found pf buf old_pos old_len
      (search_head pf buf 0 (add32 (sub32 (length buf) pf.head_len) 1))

-- The locals of the loop of `pkfinderParse`, `pk_fres == OK` as a Boolean, and the callback's state.
pub record Scan (S : Type 0) : Type 0 where
  pub fnd_index : ℕ
  pub pk_pos : ℕ
  pub pk_len : ℕ
  pub pk_fres : Bool
  pub exec : S

-- How the loop ends: by its test or a `break`, or by `return ERROR`.
pub data Out (S : Type 0) : Type 0 where
  left : Scan S → Out S
  aborted : S → Out S

-- How a round of the loop ends.
pub data Round (S : Type 0) : Type 0 where
  again : Scan S → Round S
  over : Out S → Round S

-- A round is followed by the rest of the loop, or ends it.
unfoldable pub proceed : {S : Type 0} → (Scan S → Option (Out S)) → Round S → Option (Out S)
proceed rest (again s) = rest s
proceed rest (over out) = some out

module _ {S : Type 0} (pf : PkFinder) (chk_exec : S → List ℕ → S × Bool) where
  -- What the loop does with the result of `pkfinderFind`, and with the place `pos` and the length
  -- `len` that it reported.
  unfoldable pub act : List ℕ → ℕ → Scan S → Verdict → ℕ → ℕ → Round S
  act dat parse_buf_len s no_head pos len =
      over
        (left (record s { fnd_index = sub32 (length dat) pf.head_len; pk_pos = pos; pk_len = len }))
  act dat parse_buf_len s incomplete pos len = over (
      left (record s {
        fnd_index =
            (if ltb parse_buf_len len
              then add32 (add32 s.fnd_index pos) pf.head_len
              else add32 s.fnd_index pos);
        pk_pos = pos;
        pk_len = len;
      }))
  act dat parse_buf_len s complete pos len =
      let at = add32 s.fnd_index pos in
      let (exec', good) = chk_exec s.exec (take len (drop at dat)) in
      again (record {
        fnd_index = (if good then add32 at len else add32 at pf.head_len);
        pk_pos = pos;
        pk_len = len;
        pk_fres = (if good then true else s.pk_fres);
        exec = exec';
      })
  act dat parse_buf_len s failed pos len = over (aborted s.exec)

  -- One round of `while ((fndIndex+headLen)<=datLen)`, behind its test.
  unfoldable pub round : List ℕ → ℕ → Scan S → Round S
  round dat parse_buf_len s =
      let f = find pf (drop s.fnd_index dat) s.pk_pos s.pk_len in
      act dat parse_buf_len s f.verdict f.pos f.len

  -- The loop; `none` means that the fuel ran out.
  unfoldable pub parse_loop : ℕ → List ℕ → ℕ → Scan S → Option (Out S)
  parse_loop zero dat parse_buf_len s = none
  parse_loop (suc fuel) dat parse_buf_len s =
      let next = proceed (parse_loop fuel dat parse_buf_len) (round dat parse_buf_len s) in
      if leb (add32 s.fnd_index pf.head_len) (length dat) then next else some (left s)

  -- What follows the loop: the parsed bytes are removed, unless it returned ERROR.
  unfoldable pub finish : RBuf → Out S → RBuf × S × Bool
  finish r (left s) = ((remove r s.fnd_index).0, s.exec, s.pk_fres)
  finish r (aborted e) = (r, e, false)

  unfoldable pub finished : RBuf → Option (Out S) → Option (RBuf × S × Bool)
  finished r none = none
  finished r (some out) = some (finish r out)

  -- `pkfinderParse`: the ring, the callback's state, and whether it returns OK.
  unfoldable pub parse : ℕ → RBuf → ℕ → S → Option (RBuf × S × Bool)
  parse fuel r parse_buf_len e = finished r (
      parse_loop fuel (get r parse_buf_len) parse_buf_len
        (record { fnd_index = 0; pk_pos = 0; pk_len = 0; pk_fres = false; exec = e }))
