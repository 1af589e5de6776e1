-- ===== src/Core/Daemons/Registry.antt =====
-- The maps of config_rpc.cpp agree with each other, whatever the RPCs do.
use auto_drop.Prelude.{
  ℕ, ◌≤◌, ◌<◌, ◌≡◌, refl, inl, inr, Bool, true, false, ◌==◌, some, List, [], ◌∷◌, Str, lookup,
  insert, erase, has, arith, Bool-cases, lookup-insert, lookup-erase, has-insert, has-erase, nat_eq,
}
use auto_drop.Prelude.Decimal.{stoul}
use auto_drop.Core.Daemons.{
  Config, DeviceConfig, SmConfig, Subprocess, taken, min_port, max_port, register, unregister,
  new_node, no_config,
}

-- The port that a daemon's main reads from argv[1].
abbrev pub listens_on : List Str → ℕ
listens_on [] = 0
listens_on (a ∷ []) = 0
listens_on (a ∷ b ∷ args) = stoul b

-- The process of a port exists and was started to listen on it.
abbrev pub Serves : Config → ℕ → ℕ → Type 0
Serves c p id = (n : Subprocess) × (lookup id c.nodes ≡ some n) × (listens_on n.argv ≡ p)

pub record Inv (c : Config) : Type 0 where
  pub device_port :
      (p : ℕ) (d : DeviceConfig)
      → lookup p c.device_map ≡ some d
      → (d.port ≡ p) × (min_port ≤ p) × (p < max_port)
  pub sm_port :
      (p : ℕ) (d : SmConfig)
      → lookup p c.sm_map ≡ some d
      → (d.port ≡ p) × (min_port ≤ p) × (p < max_port)
  pub apart : (p : ℕ) → has p c.device_map ≡ true → has p c.sm_map ≡ false
  pub processes : (p : ℕ) → taken p c ≡ has p c.subprocess_map
  pub serving : (p id : ℕ) → lookup p c.subprocess_map ≡ some id → Serves c p id
  pub allocated : (id : ℕ) (n : Subprocess) → lookup id c.nodes ≡ some n → id < c.next_node

pub no_config-Inv : Inv no_config
unfolding no_config lookup has taken
no_config-Inv = record {
  device_port = λ p d e. cc;
  sm_port = λ p d e. cc;
  apart = λ p e. cc;
  processes = λ p. refl;
  serving = λ p id e. cc;
  allocated = λ id n e. cc;
}

-- All but `watched` and `programs`.
abbrev pub SameMaps : Config → Config → Type 0
SameMaps c' c =
    (c'.device_map ≡ c.device_map)
    × (c'.sm_map ≡ c.sm_map)
    × (c'.subprocess_map ≡ c.subprocess_map)
    × (c'.nodes ≡ c.nodes)
    × (c'.next_node ≡ c.next_node)

pub register-SameMaps : (ok : Bool) (id : ℕ) (c : Config) → SameMaps (register ok id c) c
unfolding register
register-SameMaps ok id c = ground arith

pub register-programs : (ok : Bool) (id : ℕ) (c : Config) → (register ok id c).programs ≡ c.programs
unfolding register
register-programs ok id c = ground arith

pub unregister-SameMaps : (ok : Bool) (id : ℕ) (c : Config) → SameMaps (unregister ok id c) c
unfolding unregister
unregister-SameMaps ok id c = ground arith

-- The invariant depends on the maps alone.
pub Inv-SameMaps : {c' c : Config} → SameMaps c' c → Inv c → Inv c'
unfolding taken
Inv-SameMaps {c'} {c} (a, b, d, n, x) v = record {
  device_port = λ p e h. v.device_port p e (rw a at h);
  sm_port = λ p e h. v.sm_port p e (rw b at h);
  apart = λ p h. rw b (v.apart p (rw a at h));
  processes = λ p. rw (a, b, d) (v.processes p);
  serving = λ p id h. rw n (v.serving p id (rw d at h));
  allocated = λ id e h. rw x (v.allocated id e (rw n at h));
}

pub new_node-Inv : (n : Subprocess) (c : Config) → Inv c → Inv (new_node n c)
unfolding new_node taken
new_node-Inv n c v = record {
  device_port = v.device_port;
  sm_port = v.sm_port;
  apart = v.apart;
  processes = v.processes;
  serving = λ p id e.
      let (m, f, l) = v.serving p id e in
      (m, ground (arith, lookup-insert c.next_node id n c.nodes, v.allocated id m f), l);
  allocated = λ id m e. ground (arith, lookup-insert c.next_node id n c.nodes, v.allocated id m);
}

-- Port p gets the newest node, which listens on it.
abbrev pub Fresh : Config → ℕ → ℕ → Type 0
Fresh c p id = (min_port ≤ p) × (p < max_port) × (taken p c ≡ false) × Serves c p id

unfoldable pub add_device : ℕ → DeviceConfig → ℕ → Config → Config
add_device p d id c = record c {
  device_map = insert p d c.device_map;
  subprocess_map = insert p id c.subprocess_map;
}

unfoldable pub add_sm : ℕ → SmConfig → ℕ → Config → Config
add_sm p d id c = record c {
  sm_map = insert p d c.sm_map;
  subprocess_map = insert p id c.subprocess_map;
}

pub add_device-Inv :
    (p : ℕ) (d : DeviceConfig) (id : ℕ) (c : Config)
    → d.port ≡ p
    → Fresh c p id
    → Inv c
    → Inv (add_device p d id c)
unfolding add_device taken
add_device-Inv p d id c e f v = record {
  device_port = λ q x h. ground (arith, lookup-insert p q d c.device_map, v.device_port q x);
  sm_port = v.sm_port;
  apart = λ q h. ground (arith, has-insert p q d c.device_map, v.apart q);
  processes = λ q.
      ground
        (arith, has-insert p q d c.device_map, has-insert p q id c.subprocess_map, v.processes q);
  serving = λ q i h. elim (Bool-cases (p == q)) [
    | inl same ↦ ground (arith, lookup-insert p q id c.subprocess_map)
    | inr other ↦ v.serving q i (ground (arith, lookup-insert p q id c.subprocess_map))
  ];
  allocated = v.allocated;
}

pub add_sm-Inv :
    (p : ℕ) (d : SmConfig) (id : ℕ) (c : Config)
    → d.port ≡ p
    → Fresh c p id
    → Inv c
    → Inv (add_sm p d id c)
unfolding add_sm taken
add_sm-Inv p d id c e f v = record {
  device_port = v.device_port;
  sm_port = λ q x h. ground (arith, lookup-insert p q d c.sm_map, v.sm_port q x);
  apart = λ q h. ground (arith, has-insert p q d c.sm_map, v.apart q);
  processes = λ q.
      ground (arith, has-insert p q d c.sm_map, has-insert p q id c.subprocess_map, v.processes q);
  serving = λ q i h. elim (Bool-cases (p == q)) [
    | inl same ↦ ground (arith, lookup-insert p q id c.subprocess_map)
    | inr other ↦ v.serving q i (ground (arith, lookup-insert p q id c.subprocess_map))
  ];
  allocated = v.allocated;
}

pub drop_device-Inv :
    (p : ℕ) (c : Config)
    → has p c.device_map ≡ true
    → Inv c
    → Inv
        (record c { device_map = erase p c.device_map; subprocess_map = erase p c.subprocess_map })
unfolding taken
drop_device-Inv p c hp v = record {
  device_port = λ q x h. ground (arith, lookup-erase p q c.device_map, v.device_port q x);
  sm_port = v.sm_port;
  apart = λ q h. ground (arith, has-erase p q c.device_map, v.apart q);
  processes = λ q.
      ground (
        arith,
        has-erase p q c.device_map,
        has-erase p q c.subprocess_map,
        v.processes q,
        v.apart q,
      );
  serving = λ q i h. v.serving q i (ground (arith, lookup-erase p q c.subprocess_map));
  allocated = v.allocated;
}

pub drop_sm-Inv :
    (p : ℕ) (c : Config)
    → has p c.sm_map ≡ true
    → Inv c
    → Inv (record c { sm_map = erase p c.sm_map; subprocess_map = erase p c.subprocess_map })
unfolding taken
drop_sm-Inv p c hp v = record {
  device_port = v.device_port;
  sm_port = λ q x h. ground (arith, lookup-erase p q c.sm_map, v.sm_port q x);
  apart = λ q h. ground (arith, has-erase p q c.sm_map, v.apart q);
  processes = λ q.
      ground
        (arith, has-erase p q c.sm_map, has-erase p q c.subprocess_map, v.processes q, v.apart q);
  serving = λ q i h. v.serving q i (ground (arith, lookup-erase p q c.subprocess_map));
  allocated = v.allocated;
}
