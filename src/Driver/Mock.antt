-- ===== src/Driver/Mock.antt =====
-- src/driver/mock_driver.cpp: the driver without a device, and the coroutine that speaks a text a
-- number of times. What is logged as spoken or shown is kept, newest first.
pub mod Voice
use auto_drop.Prelude.{
  ℕ, zero, suc, Bool, true, false, not, ◌&&◌, ◌||◌, if◌then◌else◌, List, [], ◌∷◌, Str, ◌==◌,
}
use auto_drop.Prelude.Int.{ℤ, pos, negsuc, ◌-ℤ◌, ltb_ℤ}

pub record Mock : Type 0 where
  pub voice_times : ℤ
  pub voice_content : Str
  pub led_content : Str
  pub spoken : List Str
  pub shown : List Str

unfoldable pub init_mock : Mock
init_mock = record {
  voice_times = pos 0;
  voice_content = [];
  led_content = [];
  spoken = [];
  shown = [];
}

abbrev pub is_empty : Str → Bool
is_empty [] = true
is_empty (c ∷ s) = false

abbrev pub is_forever : ℤ → Bool
is_forever (pos n) = false
is_forever (negsuc n) = n == 0

-- The two tests after `m_voice_times--`.
unfoldable pub after_speaking : ℤ → Mock → Mock
after_speaking (pos zero) d = record d { voice_times = pos 0; voice_content = [] }
after_speaking (pos (suc n)) d = record d { voice_times = pos (suc n) }
after_speaking (negsuc n) d = record d { voice_times = negsuc 0 }

-- One round of the first coroutine.
unfoldable pub voice_round : Mock → Mock
unfolding ◌-ℤ◌ after_speaking
voice_round d =
    if not (is_empty d.voice_content) && (ltb_ℤ (pos 0) d.voice_times || is_forever d.voice_times)
    then after_speaking (d.voice_times -ℤ pos 1) (record d { spoken = d.voice_content ∷ d.spoken })
    else d

-- One round of the second.
unfoldable pub led_round : Mock → Mock
led_round d = if is_empty d.led_content then d else record d { shown = d.led_content ∷ d.shown }

unfoldable pub voice_broadcast : Str → ℤ → Mock → Mock
voice_broadcast content times d = record d { voice_content = content; voice_times = times }

unfoldable pub voice_stop : Mock → Mock
voice_stop d = record d { voice_content = []; voice_times = pos 0 }

unfoldable pub led_display : Str → Mock → Mock
led_display content d = record d { led_content = content }

unfoldable pub led_stop : Mock → Mock
led_stop d = record d { led_content = [] }

-- One second: both coroutines, in the order in which they were added.
unfoldable pub mock_second : Mock → Mock
unfolding voice_round led_round
mock_second d = led_round (voice_round d)

unfoldable pub mock_seconds : ℕ → Mock → Mock
mock_seconds zero d = d
mock_seconds (suc n) d = mock_seconds n (mock_second d)
