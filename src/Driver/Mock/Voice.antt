-- ===== src/Driver/Mock/Voice.antt =====
-- How often the mock driver speaks.
use auto_drop.Prelude.{ℕ, zero, suc, ◌≡◌, refl, ◌∙◌, true, false, List, [], ◌∷◌, Str, arith}
use auto_drop.Prelude.Int.{pos, negsuc, ◌-ℤ◌}
use auto_drop.Driver.Mock.{Mock, is_empty, voice_broadcast, voice_stop, mock_second, mock_seconds}

-- n times the text s, and then the rest.
abbrev pub repeat_onto : ℕ → Str → List Str → List Str
repeat_onto zero s rest = rest
repeat_onto (suc n) s rest = repeat_onto n s (s ∷ rest)

silent_second :
    (d : Mock)
    → is_empty d.voice_content ≡ true
    → let d' = mock_second d in (d'.spoken ≡ d.spoken) × (d'.voice_content ≡ d.voice_content)
unfolding mock_second
silent_second d h = ground arith

silent_seconds :
    (n : ℕ) (d : Mock) → is_empty d.voice_content ≡ true → (mock_seconds n d).spoken ≡ d.spoken
unfolding mock_seconds
silent_seconds zero d h = refl
silent_seconds (suc n) d h =
    let (a, b) = silent_second d h in silent_seconds n (mock_second d) (rw b h) ∙ a

speaking_second :
    (n : ℕ) (d : Mock)
    → is_empty d.voice_content ≡ false
    → d.voice_times ≡ pos (suc (suc n))
    → let d' = mock_second d in
      (d'.spoken ≡ d.voice_content ∷ d.spoken)
      × (d'.voice_content ≡ d.voice_content)
      × (d'.voice_times ≡ pos (suc n))
unfolding mock_second ◌-ℤ◌
speaking_second n d h e = ground arith

last_second :
    (d : Mock)
    → is_empty d.voice_content ≡ false
    → d.voice_times ≡ pos 1
    → let d' = mock_second d in
      (d'.spoken ≡ d.voice_content ∷ d.spoken) × (is_empty d'.voice_content ≡ true)
unfolding mock_second ◌-ℤ◌
last_second d h e = ground arith

speaks :
    (n k : ℕ) (d : Mock)
    → is_empty d.voice_content ≡ false
    → d.voice_times ≡ pos (suc n)
    → (mock_seconds k (mock_seconds (suc n) d)).spoken
      ≡ repeat_onto (suc n) d.voice_content d.spoken
unfolding mock_seconds
speaks zero k d h e = let (a, b) = last_second d h e in silent_seconds k (mock_second d) b ∙ a
speaks (suc n) k d h e =
    let (a, b, t) = speaking_second n d h e in speaks n k (mock_second d) (rw b h) t ∙ rw (b, a)

-- After voice_broadcast of a text that is not empty, n + 1 times with n at least 0, n + 1 seconds
-- and any k more have spoken it exactly n + 1 times, whatever the driver said before.
pub voice_broadcast_speaks :
    (n k : ℕ) (c : ℕ) (s : Str) (d : Mock)
    → (mock_seconds k (mock_seconds (suc n) (voice_broadcast (c ∷ s) (pos (suc n)) d))).spoken
      ≡ repeat_onto (suc n) (c ∷ s) d.spoken
unfolding voice_broadcast
voice_broadcast_speaks n k c s d =
    speaks n k (record d { voice_content = c ∷ s; voice_times = pos (suc n) }) refl refl

forever_second :
    (d : Mock)
    → is_empty d.voice_content ≡ false
    → d.voice_times ≡ negsuc 0
    → let d' = mock_second d in
      (d'.spoken ≡ d.voice_content ∷ d.spoken)
      × (d'.voice_content ≡ d.voice_content)
      × (d'.voice_times ≡ negsuc 0)
unfolding mock_second ◌-ℤ◌
forever_second d h e = ground arith

forever :
    (k : ℕ) (d : Mock)
    → is_empty d.voice_content ≡ false
    → d.voice_times ≡ negsuc 0
    → (mock_seconds k d).spoken ≡ repeat_onto k d.voice_content d.spoken
unfolding mock_seconds
forever zero d h e = refl
forever (suc k) d h e =
    let (a, b, t) = forever_second d h e in forever k (mock_second d) (rw b h) t ∙ rw (b, a)

-- With -1 for the number, a text that is not empty is spoken once in each of k seconds; after a
-- voice_stop nothing more is spoken in j seconds.
pub voice_broadcast_forever :
    (k j c : ℕ) (s : Str) (d : Mock)
    → let d' = mock_seconds k (voice_broadcast (c ∷ s) (negsuc 0) d) in
      (d'.spoken ≡ repeat_onto k (c ∷ s) d.spoken)
      × ((mock_seconds j (voice_stop d')).spoken ≡ d'.spoken)
unfolding voice_broadcast voice_stop
voice_broadcast_forever k j c s d =
    let d0 = record d { voice_content = c ∷ s; voice_times = negsuc 0 } in
    let d' = mock_seconds k d0 in
    (
      forever k d0 refl refl,
      silent_seconds j (record d' { voice_content = []; voice_times = pos 0 }) refl,
    )
