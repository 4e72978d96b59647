-- ===== src/Finder/Packet.antt =====
-- The packets that `pkfinderFind` reports, for a finder whose sums cannot wrap.
use dpb_s_mgmt.Base.{
  ℕ, zero, suc, ◌+◌, ◌-◌, ◌^◌, ◌≤◌, ◌<◌, ◌≡◌, true, Option, none, some, List, arith, length, get_or,
  get_or-lt, AreBytes, bit_and-le_left, bit_or-le-add, add32, sub32, if◌then◌else◌,
}
use dpb_s_mgmt.Finder.{
  PkFinder, Verdict, failed, no_head, incomplete, complete, head_at, search_head, len_byte,
  little_len, big_len, field_len, measure, measure_found, find,
}
use dpb_s_mgmt.Finder.Search.{NoHead, IsFirst, search_head-IsFirst}

-- A finder whose sums cannot wrap: the header is not empty, the length field has at most three
-- bytes, every packet is at least as long as its header, and the numbers are small.
pub record IsSane (pf : PkFinder) : Type 0 where
  pub head_pos : 0 < pf.head_len
  pub fix_len : (pf.is_pk_fix_len ≡ true) → (pf.head_len ≤ pf.pk_fix_len)
  pub add_len : pf.head_len ≤ pf.pk_len_add
  pub field_small : pf.pk_len_len ≤ 3
  pub small_pos : pf.pk_len_pos < 2 ^ 16
  pub small_fix : pf.pk_fix_len < 2 ^ 16
  pub small_add : pf.pk_len_add < 2 ^ 16

len_byte-lt :
    (pf : PkFinder) (buf : List ℕ) (pos i : ℕ) → AreBytes buf → len_byte pf buf pos i < 256
unfolding len_byte
len_byte-lt pf buf pos i h = ground (
  arith,
  get_or-lt buf (pos + pf.pk_len_pos + i) h,
  bit_and-le_left (get_or buf (pos + pf.pk_len_pos + i) 0) pf.pk_len_first_msk,
)

little_len-lt :
    (pf : PkFinder) (buf : List ℕ) (pos rounds : ℕ)
    → AreBytes buf
    → rounds ≤ 3
    → little_len pf buf pos 0 0 rounds < 2 ^ 24
unfolding little_len
little_len-lt pf buf pos zero h s = omega arith
little_len-lt pf buf pos (suc zero) h s = omega (arith, len_byte-lt pf buf pos 0 h, bit_or-le-add)
little_len-lt pf buf pos (suc (suc zero)) h s =
    omega (arith, len_byte-lt pf buf pos 0 h, len_byte-lt pf buf pos 1 h, bit_or-le-add)
little_len-lt pf buf pos (suc (suc (suc zero))) h s = omega (
  arith,
  len_byte-lt pf buf pos 0 h,
  len_byte-lt pf buf pos 1 h,
  len_byte-lt pf buf pos 2 h,
  bit_or-le-add,
)
little_len-lt pf buf pos (suc (suc (suc (suc n)))) h s = absurd (omega arith)

big_len-lt :
    (pf : PkFinder) (buf : List ℕ) (pos rounds : ℕ)
    → AreBytes buf
    → rounds ≤ 3
    → big_len pf buf pos 0 0 rounds < 2 ^ 24
unfolding big_len
big_len-lt pf buf pos zero h s = omega arith
big_len-lt pf buf pos (suc zero) h s =
    omega (arith, len_byte-lt pf buf pos (pf.pk_len_len - 0 - 1) h, bit_or-le-add)
big_len-lt pf buf pos (suc (suc zero)) h s = omega (
  arith,
  len_byte-lt pf buf pos (pf.pk_len_len - 0 - 1) h,
  len_byte-lt pf buf pos (pf.pk_len_len - 1 - 1) h,
  bit_or-le-add,
)
big_len-lt pf buf pos (suc (suc (suc zero))) h s = omega (
  arith,
  len_byte-lt pf buf pos (pf.pk_len_len - 0 - 1) h,
  len_byte-lt pf buf pos (pf.pk_len_len - 1 - 1) h,
  len_byte-lt pf buf pos (pf.pk_len_len - 2 - 1) h,
  bit_or-le-add,
)
big_len-lt pf buf pos (suc (suc (suc (suc n)))) h s = absurd (omega arith)

field_len-lt :
    {pf : PkFinder} (buf : List ℕ) (pos : ℕ)
    → IsSane pf
    → AreBytes buf
    → field_len pf buf pos < 2 ^ 24
unfolding field_len
field_len-lt {pf} buf pos v h =
    ground (arith, little_len-lt pf buf pos pf.pk_len_len h, big_len-lt pf buf pos pf.pk_len_len h)

-- The length of the packet whose header is at `pos`.
abbrev pub packet_len : PkFinder → List ℕ → ℕ → ℕ
packet_len pf buf pos =
    if pf.is_pk_fix_len then pf.pk_fix_len else field_len pf buf pos + pf.pk_len_add

-- What the result of `pkfinderFind` says of the buffer.
abbrev pub Says : PkFinder → List ℕ → Verdict → ℕ → ℕ → Type 0
Says pf buf failed pos len = ⊥
Says pf buf no_head pos len = NoHead pf buf 0 (length buf - pf.head_len + 1)
Says pf buf incomplete pos len =
    (pos + pf.head_len ≤ length buf) × (head_at pf buf pos ≡ true) × NoHead pf buf 0 pos
Says pf buf complete pos len =
    (pos + len ≤ length buf)
    × (pf.head_len ≤ len)
    × (head_at pf buf pos ≡ true)
    × NoHead pf buf 0 pos
    × (len ≡ packet_len pf buf pos)

measure-Says :
    {pf : PkFinder} (buf : List ℕ) (pos old_len : ℕ)
    → IsSane pf
    → AreBytes buf
    → length buf < 2 ^ 31
    → pos + pf.head_len ≤ length buf
    → head_at pf buf pos ≡ true
    → NoHead pf buf 0 pos
    → let f = measure pf buf pos old_len in Says pf buf f.verdict f.pos f.len
unfolding measure
measure-Says {pf} buf pos old_len v h s at here first = ground (arith, field_len-lt buf pos v h)

found-Says :
    {pf : PkFinder} (buf : List ℕ) (old_pos old_len : ℕ) (o : Option ℕ)
    → IsSane pf
    → AreBytes buf
    → length buf < 2 ^ 31
    → pf.head_len ≤ length buf
    → IsFirst pf buf 0 (length buf - pf.head_len + 1) o
    → let f = measure_found pf buf old_pos old_len o in Says pf buf f.verdict f.pos f.len
unfolding measure_found
found-Says buf old_pos old_len none v h s fits first = first
found-Says buf old_pos old_len (some pos) v h s fits first =
    measure-Says buf pos old_len v h s (omega arith) first.2 first.3

-- `pkfinderFind`, on a buffer that holds a header's length of bytes and with a finder whose sums
-- cannot wrap, never reports -1; reports 0 only where the header is nowhere; and otherwise reports
-- the first place of the header. A packet that it reports as complete lies in the buffer, is at
-- least as long as its header, and has the length that the finder's configuration gives it.
pub find-Says :
    {pf : PkFinder} (buf : List ℕ) (old_pos old_len : ℕ)
    → IsSane pf
    → AreBytes buf
    → length buf < 2 ^ 31
    → pf.head_len ≤ length buf
    → let f = find pf buf old_pos old_len in Says pf buf f.verdict f.pos f.len
unfolding find
find-Says {pf} buf old_pos old_len v h s fits =
    let rounds : ℕ = add32 (sub32 (length buf) pf.head_len) 1 in
    let e : length buf - pf.head_len + 1 ≡ 0 + rounds = omega arith in
    found-Says buf old_pos old_len (search_head pf buf 0 rounds) v h s fits
      (search_head-IsFirst pf buf 0 rounds (length buf - pf.head_len + 1) e)
