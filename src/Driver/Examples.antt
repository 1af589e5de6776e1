-- ===== src/Driver/Examples.antt =====
-- The chute's driver on concrete inputs: a coefficient of 5, a Modbus device that always answers.
use auto_drop.Prelude.{
  ℕ, ◌≡◌, ◌≢◌, refl, ◌⊎◌, inl, ◌↔◌, true, false, some, List, [], ◌∷◌, codes, arith,
}
use auto_drop.Prelude.Int.{pos, ◌+ℤ◌, ◌-ℤ◌, tdiv, idiv}
use auto_drop.Driver.Common.{
  stop, hold_open, CommonDriver, init_driver, Request, lc_open, second, serve_all, set_lc_open,
  relay_tick, ticks, ◌>>=◌,
}
use auto_drop.Driver.Common.Interlock.{
  recorder, coil, opens, closes, Interlocked, Cmd, serve_all-Interlocked,
}
use auto_drop.Driver.Common.Travel.{
  KeepsCoe, ArrivedAt, set_lc_open_arrives, set_lc_open_overshoots,
}
use auto_drop.Driver.Tastek.{
  Coils4, all_off, put_coil, get_coil, Tastek, init_tastek, Modbus, open_close_lc_cmd,
  get_position_coe, tastek_methods, modbus_loop, lc_get_coil, sync_coil, running_status_check,
}
use auto_drop.Driver.Tastek.Coils.{Works, modbus_loop_syncs, turn_to_open_overlaps}
use auto_drop.Driver.Tastek.Errors.{challenge_all, LongRun, failed_iff_LongRun}

abbrev tastek : Tastek
tastek = init_tastek (codes "127.0.0.1") (pos 5) (pos 20)

abbrev chute : CommonDriver ℕ Tastek
chute = init_driver 0 tastek

abbrev opening : CommonDriver ℕ Tastek
opening = record chute { relay_state = hold_open }

tastek_keeps : KeepsCoe tastek_methods
unfolding open_close_lc_cmd get_position_coe
tastek_keeps o n d = ground arith

abbrev requests : List Request
requests = lc_open (pos 100) ∷ second ∷ second ∷ lc_open (pos 0) ∷ second ∷ []

set_lc_open_arrives_example :
    (c' : CommonDriver ℕ Tastek) × ((set_lc_open tastek_methods (pos 25) chute
        >>= ticks tastek_methods 5)
      ≡ some c')
    × ArrivedAt tastek_methods c' (tdiv (pos 25) (pos 5)) (pos 5)
unfolding get_position_coe idiv tdiv init_driver init_tastek ◌+ℤ◌
set_lc_open_arrives_example =
    set_lc_open_arrives tastek_methods tastek_keeps 4 chute (pos 25) 4 refl (inl refl)

is_opening : hold_open ≢ stop
is_opening e = cc

set_lc_open_overshoots_example :
    (c' : CommonDriver ℕ Tastek) × ((set_lc_open tastek_methods (pos 0) opening
        >>= relay_tick tastek_methods)
      ≡ some c')
    × (c'.relay_state ≡ stop)
    × ((c'.state_stay_position ≡ tdiv (pos 0) (pos 5) +ℤ pos 1)
        ⊎ (c'.state_stay_position ≡ tdiv (pos 0) (pos 5) -ℤ pos 1))
unfolding get_position_coe idiv tdiv init_driver init_tastek
set_lc_open_overshoots_example =
    set_lc_open_overshoots tastek_methods tastek_keeps 4 opening (pos 0) refl refl is_opening

serve_all-Interlocked_example :
    (c : CommonDriver ℕ (List Cmd)) × (serve_all (recorder (pos 5)) requests (init_driver 0 [])
      ≡ some c)
    × (coil true c.sub ≡ opens c.relay_state)
    × (coil false c.sub ≡ closes c.relay_state)
    × Interlocked c.sub
serve_all-Interlocked_example = serve_all-Interlocked 0 4 requests

-- A device whose state is its four coils.
abbrev simulated : Modbus Coils4
simulated = record {
  connect = λ h w. (true, w);
  write_bit = λ i b w. (true, put_coil i b w);
  read_bits = λ w. (some w, w);
}

abbrev its_coils : Coils4 → Coils4
its_coils w = w

simulated-Works : Works simulated its_coils
simulated-Works = record {
  connects = λ h w. refl;
  connect_keeps = λ h w. refl;
  writes = λ i b w. refl;
  write_sets = λ i b w. refl;
  reads = λ w. refl;
  read_keeps = λ w. refl;
}

abbrev to_open : Tastek
to_open = record tastek { on_addr = put_coil 0 true all_off }

abbrev was_closing : Coils4
was_closing = put_coil 1 true all_off

modbus_loop_syncs_example :
    let (d', w') = modbus_loop simulated (to_open, was_closing) in
    (its_coils w' ≡ to_open.on_addr)
    × (d'.on_addr ≡ to_open.on_addr)
    × (d'.error ≡ to_open.error)
    × (d'.cur_retry_times ≡ 0)
modbus_loop_syncs_example =
    modbus_loop_syncs simulated its_coils simulated-Works to_open was_closing

turn_to_open_overlaps_example :
    let w' = (sync_coil simulated 0 (lc_get_coil simulated (to_open, was_closing))).1 in
    (get_coil 0 (its_coils w') ≡ true) × (get_coil 1 (its_coils w') ≡ true)
unfolding init_tastek
turn_to_open_overlaps_example =
    turn_to_open_overlaps simulated its_coils simulated-Works to_open was_closing
      (refl, refl, refl, refl)

failed_iff_LongRun_example :
    (running_status_check (
        challenge_all
          (true ∷ false ∷ false ∷ [])
          (init_tastek (codes "127.0.0.1") (pos 1) (pos 20)))
      ≡ false)
    ↔ LongRun (pos 1) (true ∷ false ∷ false ∷ [])
failed_iff_LongRun_example =
    failed_iff_LongRun (codes "127.0.0.1") (pos 1) (pos 20) (true ∷ false ∷ false ∷ [])
