-- ===== src/Finder/Tests.antt =====
-- Runs of the finder of pkfinder.c with the configuration of uart_rs422_client.c.
use dpb_s_mgmt.Base.{
  ℕ, ◌≡◌, refl, Bool, true, false, List, [], ◌∷◌, arith, replicate, ◌++◌, AreBytes,
}
use dpb_s_mgmt.Ring.{RBuf}
use dpb_s_mgmt.Ring.Contents.{IsValid, contents}
use dpb_s_mgmt.Finder.{
  PkFinder, incomplete, complete, search_head, head_at, head_from, find, measure, measure_found,
  field_len, len_byte, big_len, parse,
}
use dpb_s_mgmt.Finder.Packet.{IsSane, Says, find-Says}
use dpb_s_mgmt.Finder.Parse.{Keeps}
use dpb_s_mgmt.Finder.Stream.{Parsed, parse-Parsed}

abbrev acks : PkFinder
acks = record {
  head_buf = 0x1A ∷ 0xCF ∷ [];
  head_len = 2;
  head_masks = 0xFF ∷ 0xFF ∷ [];
  is_pk_fix_len = false;
  pk_fix_len = 0;
  pk_len_pos = 6;
  pk_len_len = 2;
  pk_len_first_msk = 0xFF;
  little_end = false;
  pk_len_add = 11;
}

acks-IsSane : IsSane acks
acks-IsSane = record {
  head_pos = omega arith;
  fix_len = λ e. cc;
  add_len = omega arith;
  field_small = omega arith;
  small_pos = omega arith;
  small_fix = omega arith;
  small_add = omega arith;
}

-- Two bytes of noise, then an acknowledgement.
abbrev stream : List ℕ
stream = 7 ∷ 0x1A ∷ 0x1A ∷ 0xCF ∷ 1 ∷ 0x80 ∷ 0xC0 ∷ 0 ∷ 0 ∷ 2 ∷ 1 ∷ 0x8A ∷ 0 ∷ 0xFE ∷ 0x31 ∷ []

stream-AreBytes : AreBytes stream
stream-AreBytes = omega arith

find-stream : find acks stream 0 0 ≡ record { verdict = complete; pos = 2; len = 13 }
unfolding find search_head head_at head_from measure measure_found field_len len_byte big_len
find-stream = refl

find-Says_example : let f = find acks stream 0 0 in Says acks stream f.verdict f.pos f.len
find-Says_example = find-Says stream 0 0 acks-IsSane stream-AreBytes (omega arith) (omega arith)

abbrev ring : RBuf
ring = record { buf = stream ++ replicate 5 0; len = 20; in_index = 15; out_index = 0 }

ring-IsValid : IsValid ring
ring-IsValid = omega arith

-- A callback that keeps the packets and takes them all.
abbrev collect : List (List ℕ) → List ℕ → List (List ℕ) × Bool
collect packets pk = (pk ∷ packets, true)

-- The status is true if and only if there is a packet.
abbrev Counted : ℕ → Bool → List (List ℕ) → Type 0
Counted at ok [] = ok ≡ false
Counted at ok (pk ∷ packets) = ok ≡ true

later-Counted : (at at' : ℕ) (ok : Bool) (e : List (List ℕ)) → Counted at ok e → Counted at' ok e
later-Counted at at' ok [] p = p
later-Counted at at' ok (pk ∷ e) p = p

collect-Keeps : Keeps acks collect (contents ring) Counted
collect-Keeps = record {
  later = λ at at' ok e le p. later-Counted at at' ok e p;
  packet = λ lo at len ok e l1 l2 l3 h m p. refl;
}

parse-Parsed_example : Parsed acks collect ring Counted (parse acks collect 16 ring 5120 [])
parse-Parsed_example =
    parse-Parsed acks collect Counted {r = ring} 16 5120 [] collect-Keeps acks-IsSane ring-IsValid
      stream-AreBytes (omega arith) (omega arith) (omega arith) (omega arith) refl

-- The same bytes without the last one.
abbrev partial : RBuf
partial = record { buf = stream ++ replicate 5 0; len = 20; in_index = 14; out_index = 0 }

partial-IsValid : IsValid partial
partial-IsValid = omega arith

find-partial : (find acks (contents partial) 0 0).verdict ≡ incomplete
unfolding find search_head head_at head_from measure measure_found field_len len_byte big_len
find-partial = refl
