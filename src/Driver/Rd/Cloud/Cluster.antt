-- ===== src/Driver/Rd/Cloud/Cluster.antt =====
-- src/driver/rd_driver/pc_opt.cpp: which cluster is taken for the side of the vehicle.
use auto_drop.Prelude.{
  ◌≤◌, false, if◌then◌else◌, ltb, lt→ltb, List, [], ◌∷◌, ◌++◌, All, length, ◌⊎◌, inl, inr, ◌≡◌,
  refl, sym, subst, ◌∙◌, append_assoc, append-nil, arith,
}
use auto_drop.Prelude.Int.{ℤ}
use native.Mathlib.Decide.{dec_lt}
use auto_drop.Driver.Rd.Cloud.{
  Cloud, Pcl, AfterPickup, pick_larger, max_cluster, cluster_plane_points, find_max_cluster,
}

abbrev pub concat : {A : Type 0} → List (List A) → List A
concat [] = []
concat (x ∷ xs) = x ++ concat xs

module _ {F : Type 0} where
  abbrev pub Any : (Cloud F → Type 0) → List (Cloud F) → Type 0
  Any P [] = ⊥
  Any P (c ∷ cs) = P c ⊎ Any P cs

  pick_larger-last :
      (cs : List (Cloud F)) (s : AfterPickup F) → (pick_larger cs s).last ≡ s.last ++ concat cs
  unfolding pick_larger
  pick_larger-last [] s = sym (append-nil s.last)
  pick_larger-last (c ∷ cs) s = pick_larger-last cs _ ∙ append_assoc s.last c (concat cs)

  larger :
      (a c : Cloud F)
      → (length a ≤ length (if ltb (length a) (length c) then c else a))
        × (length c ≤ length (if ltb (length a) (length c) then c else a))
        × (((if ltb (length a) (length c) then c else a) ≡ a)
            ⊎ ((if ltb (length a) (length c) then c else a) ≡ c))
  larger a c = elim (dec_lt (length a) (length c)) [
    | yes lt ↦ rw (lt→ltb (length a) (length c) lt) (omega arith, omega arith, inr refl)
    | no ge ↦
        let f : ltb (length a) (length c) ≡ false = ground arith in
        rw f (omega arith, omega arith, inl refl)
  ]

  -- The pick is never smaller than before, nor than any cluster seen.
  pick_larger-Largest :
      (cs : List (Cloud F)) (s : AfterPickup F)
      → (length s.picked ≤ length (pick_larger cs s).picked)
        × All (λ c. length c ≤ length (pick_larger cs s).picked) cs
        × ((pick_larger cs s).picked ≡ s.picked ⊎ Any (λ c. (pick_larger cs s).picked ≡ c) cs)
  unfolding pick_larger
  pick_larger-Largest [] s = (omega arith, tt, inl refl)
  pick_larger-Largest (c ∷ cs) s =
      let (ge_picked, ge_c, which) = larger s.picked c in
      let (ge, all, from) = pick_larger-Largest cs (record {
        picked = if ltb (length s.picked) (length c) then c else s.picked;
        last = s.last ++ c;
      }) in
      (
        omega (arith, ge_picked, ge),
        (omega (arith, ge_c, ge), all),
        elim from [
          | inl e ↦ elim which [ inl w ↦ inl (e ∙ w) | inr w ↦ inr (inl (e ∙ w)) ]
          | inr a ↦ inr (inr a)
        ],
      )

  -- One of the clusters, and none is larger; the others but the first are the rest.
  abbrev pub PicksLargest : Cloud F → List (Cloud F) → AfterPickup F → Type 0
  PicksLargest c cs r =
      All (λ d. length d ≤ length r.picked) (c ∷ cs)
      × Any (λ d. r.picked ≡ d) (c ∷ cs)
      × (r.last ≡ concat cs)

  pub max_cluster-Largest :
      (cloud c : Cloud F) (cs : List (Cloud F)) → PicksLargest c cs (max_cluster cloud (c ∷ cs))
  unfolding max_cluster
  max_cluster-Largest cloud c cs =
      let s : AfterPickup F = record { last = []; picked = c } in
      let (ge, all, from) = pick_larger-Largest cs s in ((ge, all), from, pick_larger-last cs s)

module _ {F : Type 0} (pcl : Pcl F) where
  -- For any cloud in which the clusters c, cs are found: what is picked is one of the clusters and
  -- none is larger; and what is put into `last` is all the clusters but the first, whichever is
  -- picked: a first cluster that is not picked is in neither, and the picked one is then in both.
  pub find_max_cluster-Largest :
      (cloud : Cloud F) (threshold : F) (require_points : ℤ) (c : Cloud F) (cs : List (Cloud F))
      → cluster_plane_points pcl cloud threshold require_points ≡ c ∷ cs
      → PicksLargest c cs (find_max_cluster pcl cloud threshold require_points)
  unfolding find_max_cluster
  find_max_cluster-Largest cloud threshold require_points c cs e =
      subst (λ l. PicksLargest c cs (max_cluster cloud l)) (sym e) (max_cluster-Largest cloud c cs)
