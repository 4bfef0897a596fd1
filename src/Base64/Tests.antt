-- ===== src/Base64/Tests.antt =====
-- Runs of the stages, and the theorems at inputs where they apply.
use arksh.Base.{◌+◌, ◌*◌, ◌/◌, ◌≡◌, refl, [], ◌∷◌, arith, Bytes, codes}
use arksh.Base64.{
  string, ok, err, bad_length, bad_character, apply_base64_encode_stage, apply_base64_decode_stage,
  letter, until_zero,
}
use arksh.Base64.RoundTrip.{decode-encode_stage}
use arksh.Base64.Padding.{WithinBuffer, stages-WithinBuffer, digit_after_padding}

encode_runs : apply_base64_encode_stage (string (codes "arksh")) ≡ ok (codes "YXJrc2g=")
unfolding apply_base64_encode_stage
encode_runs = refl

decode_runs : apply_base64_decode_stage (string (codes "YXJrc2g=")) ≡ ok (codes "arksh")
unfolding apply_base64_decode_stage
decode_runs = refl

decode_refuses :
    (apply_base64_decode_stage (string (codes "YXJ")) ≡ err bad_length)
    × (apply_base64_decode_stage (string (codes "YXJrc!==")) ≡ err (bad_character 5))
unfolding apply_base64_decode_stage
decode_refuses = (refl, refl)

decode-encode_stage_example :
    (code : Bytes) × (apply_base64_encode_stage (string (codes "arksh")) ≡ ok code)
    × (apply_base64_decode_stage (string code) ≡ ok (codes "arksh"))
decode-encode_stage_example = decode-encode_stage (codes "arksh") (omega arith) (omega arith)

stages-WithinBuffer_example :
    WithinBuffer 0 (apply_base64_encode_stage (string (codes "arksh")))
    × WithinBuffer 0 (apply_base64_decode_stage (string (codes "arksh")))
stages-WithinBuffer_example = stages-WithinBuffer (string (codes "arksh"))

digit_after_padding_example :
    apply_base64_decode_stage (string (letter 16 ∷ letter 16 ∷ b'=' ∷ letter 0 ∷ []))
    ≡ ok (until_zero ((16 * 4 + 16 / 16) ∷ (128 + 0) ∷ []))
digit_after_padding_example = digit_after_padding 16 16 0 (omega arith) (omega arith) (omega arith)
