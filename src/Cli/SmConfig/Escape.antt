-- ===== src/Cli/SmConfig/Escape.antt =====
-- How make_bdr of sm_config.cpp writes Lua code on one line, and how input_action reads it back.
use auto_drop.Prelude.{
  ℕ, suc, ◌+◌, ◌≡◌, refl, ◌↔◌, ap, false, ◌&&◌, if◌then◌else◌, ◌==◌, [], ◌∷◌, length, Str, arith,
}
use auto_drop.Cli.SmConfig.{decode_newlines, encode_newlines}

-- How many times "<>" stands in a text.
abbrev pub marks : Str → ℕ
marks [] = 0
marks (a ∷ []) = 0
marks (a ∷ b ∷ s) =
    let rest = marks (b ∷ s) in if (a == b'<') && (b == b'>') then suc rest else rest

decode-encode : (s : Str) → marks s ≡ 0 → decode_newlines (encode_newlines s) ≡ s
unfolding decode_newlines encode_newlines
decode-encode [] h = refl
decode-encode (a ∷ []) h = ground arith
decode-encode (a ∷ b ∷ s) h = ground (arith, decode-encode (b ∷ s))

length-decode-encode : (s : Str) → length (decode_newlines (encode_newlines s)) + marks s ≡ length s
unfolding decode_newlines encode_newlines
length-decode-encode [] = refl
length-decode-encode (a ∷ []) = ground arith
length-decode-encode (a ∷ b ∷ s) =
    ground (arith, length-decode-encode (b ∷ s), length-decode-encode s, marks_after b s)
  where
    marks_after : (b : ℕ) (s : Str) → (b == b'<') ≡ false → marks (b ∷ s) ≡ marks s
    marks_after b [] h = refl
    marks_after b (c ∷ s) h = ground arith

-- Writing code on one line and reading it back gives the code again exactly if "<>" does not stand
-- in it.
pub decode-encode_iff : (s : Str) → (decode_newlines (encode_newlines s) ≡ s) ↔ (marks s ≡ 0)
decode-encode_iff s = (λ e. omega (arith, length-decode-encode s, ap length e), decode-encode s)
