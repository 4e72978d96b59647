-- ===== src/MessageRing/Exchange.antt =====
-- The two buffers of rng.c that change places: what is written comes out at the next exchange.
use dpb_s_mgmt.Base.{
  ℕ, ◌*◌, ◌%◌, ◌^◌, ◌<◌, ◌≡◌, refl, ◌∙◌, ◌⊎◌, inl, inr, List, length, arith, length-copy_in,
}
use dpb_s_mgmt.MessageRing.{Rng, fill, pingp_swap, message_at_read}
use dpb_s_mgmt.MessageRing.Slots.{slot-written, slot-other}

-- Two buffers, one of which is written and the other read.
abbrev pub IsPair : Rng → Type 0
IsPair r =
    (length r.buf ≡ 2 * r.msg_len)
    × (length r.buf < 2 ^ 32)
    × (((r.in_index ≡ 0) × (r.out_index ≡ 1)) ⊎ ((r.in_index ≡ 1) × (r.out_index ≡ 0)))

-- Behind a write the reader still has its message, and behind the exchange it has the new one.
pub record Exchanged (r : Rng) (msg : List ℕ) : Type 0 where
  pub before : message_at_read (fill msg r) ≡ message_at_read r
  pub after : message_at_read (pingp_swap (fill msg r)) ≡ msg
  pub pair : IsPair (pingp_swap (fill msg r))

-- In two buffers of a message each, a message that is written changes nothing for the reader until the
-- exchange, is what the reader has behind it, and leaves two such buffers.
pub pingp_swap-Exchanged :
    (r : Rng) (msg : List ℕ) → IsPair r → length msg ≡ r.msg_len → Exchanged r msg
unfolding pingp_swap
pingp_swap-Exchanged r msg (size, small, inl (at0, at1)) h =
    let e0 : (0 * r.msg_len) % 2 ^ 32 ≡ 0 * r.msg_len = omega arith in
    let e1 : (1 * r.msg_len) % 2 ^ 32 ≡ 1 * r.msg_len = omega arith in
    let same = length-copy_in r.buf (0 * r.msg_len) msg in
    record {
      before = rw (at0, at1, e0, e1) (slot-other r.msg_len 0 1 r.buf msg h (omega arith));
      after = rw (at0, e0) (slot-written r.msg_len 0 r.buf msg h (omega arith));
      pair = rw (at0, e0) (same ∙ size, rw same small, inr (refl, refl));
    }
pingp_swap-Exchanged r msg (size, small, inr (at1, at0)) h =
    let e0 : (0 * r.msg_len) % 2 ^ 32 ≡ 0 * r.msg_len = omega arith in
    let e1 : (1 * r.msg_len) % 2 ^ 32 ≡ 1 * r.msg_len = omega arith in
    let same = length-copy_in r.buf (1 * r.msg_len) msg in
    record {
      before = rw (at0, at1, e0, e1) (slot-other r.msg_len 1 0 r.buf msg h (omega arith));
      after = rw (at1, e1) (slot-written r.msg_len 1 r.buf msg h (omega arith));
      pair = rw (at1, e1) (same ∙ size, rw same small, inl (refl, refl));
    }
