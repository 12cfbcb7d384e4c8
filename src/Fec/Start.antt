-- ===== src/Fec/Start.antt =====
-- fec.go: newFECEncoder and newFECDecoder for the same counts.
use kcp_go.Prelude.{ℕ, suc, ◌+◌, ◌-◌, ◌/◌, ◌^◌, ◌≤◌, ◌≡◌, refl, true, some, arith, le→ltb, pos}
use kcp_go.Fec.{Codec, paws_of, FecEncoder, new_fec_encoder}
use kcp_go.Fec.Align.{IsAligned}
use kcp_go.Fec.Decoder.{FecDecoder, new_fec_decoder}
use kcp_go.Fec.Expected.{IsPeer}
use native.Mathlib.Nat.{le-div_iff_mul-le, div-mul-le_self}

-- For the same positive counts, 256 together at most, that the codec accepts, both constructors
-- succeed. The encoder starts aligned, with its payload six bytes behind its header, and the decoder
-- is its peer.
pub new_fec_encoder-IsAligned :
    (codec : Codec) (d p offset : ℕ)
    → suc d + suc p ≤ 256
    → codec.accepts (suc d) (suc p) ≡ true
    → (enc : FecEncoder) × (dec : FecDecoder) × (new_fec_encoder codec
          (pos (suc d))
          (pos (suc p))
          offset
        ≡ some enc)
      × (new_fec_decoder codec (pos (suc d)) (pos (suc p)) ≡ some dec)
      × IsAligned enc
      × IsPeer enc dec
      × (enc.payload_offset ≡ enc.header_offset + 6)
unfolding new_fec_encoder new_fec_decoder paws_of
new_fec_encoder-IsAligned codec d p offset hs ha =
    let some_set : 1 ≤ (2 ^ 32 - 1) / (suc d + suc p) =
      (le-div_iff_mul-le {k = suc d + suc p} {x = 1} {y = 2 ^ 32 - 1} (omega arith)).1
        (omega arith) in
    rw (ha, le→ltb 256 (suc d + suc p) hs)
      (
        _,
        _,
        refl,
        refl,
        record {
          group = 0;
          groups = (2 ^ 32 - 1) / (suc d + suc p);
          sizes = refl;
          some_parity = omega arith;
          in_set = omega arith;
          wraps = refl;
          in_groups = some_set;
          is_word = omega (arith, div-mul-le_self (2 ^ 32 - 1) (suc d + suc p));
          place = omega arith;
        },
        (refl, refl),
        refl,
      )
