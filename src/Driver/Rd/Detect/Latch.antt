-- ===== src/Driver/Rd/Detect/Latch.antt =====
-- src/driver/rd_driver/pc_opt.cpp: what the driver reports after frames and ticks in any order.
use auto_drop.Prelude.{
  Bool, true, false, ◌||◌, if◌then◌else◌, Bool-cases, List, [], ◌∷◌, inl, inr, ◌≡◌, refl, ap, ◌∙◌,
}
use auto_drop.Driver.Common.{Position, begin, middle, ending, out}
use auto_drop.Driver.Rd.{FloatOps}
use auto_drop.Driver.Rd.Cloud.{Cloud, Pcl, Ini, split_cloud_to_side_and_content}
use auto_drop.Driver.Rd.Position.{KeySegParams, get_position_state_from_cloud}
use auto_drop.Driver.Rd.Detect.{is_out, found_of, found_in, prepare, Event, frame, ticked}

-- What one frame adds: whether the vehicle was gone, and what the frame found.
pub record Sighting (F : Type 0) : Type 0 where
  pub gone : Bool
  pub found : Position × F

module _ {F : Type 0} (ops : FloatOps F) where
  abbrev pub nothing : Position × F
  nothing = (out, ops.zero_f)

  -- The first sighting that found a vehicle.
  abbrev pub first_seen : List (Sighting F) → Position × F
  first_seen [] = nothing
  first_seen (s ∷ ss) = if is_out s.found.0 then first_seen ss else s.found

  abbrev pub any_gone : List (Sighting F) → Bool
  any_gone [] = false
  any_gone (s ∷ ss) = s.gone || any_gone ss

  -- The sightings after the last one at which the vehicle was gone.
  abbrev pub since_gone : List (Sighting F) → List (Sighting F)
  since_gone [] = []
  since_gone (s ∷ ss) = if any_gone ss then since_gone ss else if s.gone then ss else s ∷ ss

  -- What is held after one sighting, as process_msg does it.
  abbrev pub latch : Position × F → Sighting F → Position × F
  latch h s = if s.gone then nothing else if is_out h.0 then s.found else h

  abbrev pub latch_all : Position × F → List (Sighting F) → Position × F
  latch_all h [] = h
  latch_all h (s ∷ ss) = latch_all (latch h s) ss

  abbrev pub Clean : Position × F → Type 0
  Clean h = is_out h.0 ≡ true → h ≡ nothing

  abbrev pub AllClean : List (Sighting F) → Type 0
  AllClean [] = Unit
  AllClean (s ∷ ss) = Clean s.found × AllClean ss

  if-Clean : (b : Bool) (h k : Position × F) → Clean h → Clean k → Clean (if b then h else k)
  if-Clean true h k ch ck = ch
  if-Clean false h k ch ck = ck

  latch-Clean : (h : Position × F) (s : Sighting F) → Clean h → Clean s.found → Clean (latch h s)
  latch-Clean h s ch cs =
      if-Clean s.gone nothing _ (λ e. refl) (if-Clean (is_out h.0) s.found h cs ch)

  pub latch_all-seen :
      (h : Position × F) (ss : List (Sighting F))
      → Clean h
      → AllClean ss
      → latch_all h ss ≡ (
          if any_gone ss
          then first_seen (since_gone ss)
          else if is_out h.0
          then first_seen ss
          else h)
  latch_all-seen h [] ch css = elim (Bool-cases (is_out h.0)) [
    | inl e ↦ rw e (ch e)
    | inr e ↦ rw e refl
  ]
  latch_all-seen h (s ∷ ss) ch css =
      latch_all-seen (latch h s) ss (latch-Clean h s ch css.0) css.1
      ∙ cases (any_gone ss) s.gone (is_out h.0) refl
    where
      cases :
          (a g o : Bool)
          → is_out h.0 ≡ o
          → (if a
              then first_seen (since_gone ss)
              else if is_out (if g then nothing else if o then s.found else h).0
              then first_seen ss
              else if g
              then nothing
              else if o
              then s.found
              else h)
            ≡ (if g || a
                then first_seen (if a then since_gone ss else if g then ss else s ∷ ss)
                else if o
                then first_seen (s ∷ ss)
                else h)
      cases true true o e = refl
      cases true false o e = refl
      cases false true o e = refl
      cases false false true e = refl
      cases false false false e = rw e refl

module _ {F : Type 0} (ops : FloatOps F) (ini : Ini F) (pcl : Pcl F) where
  -- What each frame adds; the distance `d` in force is the one of the last tick.
  unfoldable pub sightings : F → List (Event F) → List (Sighting F)
  sightings d [] = []
  sightings d (frame msg ∷ es) =
      record {
        gone = ops.lt (ops.add (ops.neg d) ini.distance_offset) ini.bottom_z;
        found = found_in ops ini pcl (prepare ops ini pcl msg);
      }
      ∷ sightings d es
  sightings d (ticked d' ∷ es) = sightings d' es

  out_of : (p : Position) → is_out p ≡ true → p ≡ out
  out_of out e = refl
  out_of begin e = cc e
  out_of middle e = cc e
  out_of ending e = cc e

  found_of-Clean : (key : KeySegParams F) → Clean ops (found_of ops ini key)
  found_of-Clean key e = rw e (ap (λ p. (p, ops.zero_f)) (out_of key.state e))

  found_in-Clean : (cloud : Cloud F) → Clean ops (found_in ops ini pcl cloud)
  unfolding found_in
  found_in-Clean cloud =
      found_of-Clean
        (get_position_state_from_cloud ops pcl ini
          (split_cloud_to_side_and_content pcl ini cloud).legal_side).0

  pub sightings-Clean : (d : F) (es : List (Event F)) → AllClean ops (sightings d es)
  unfolding sightings
  sightings-Clean d [] = tt
  sightings-Clean d (frame msg ∷ es) = (found_in-Clean _, sightings-Clean d es)
  sightings-Clean d (ticked d' ∷ es) = sightings-Clean d' es
