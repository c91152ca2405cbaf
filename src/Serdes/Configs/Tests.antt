-- ===== src/Serdes/Configs/Tests.antt =====
-- A list with an entry for all ports and one for port 3 alone.
use ss_sbl.Prelude.{
  ℕ, ◌≡◌, ◌⊎◌, refl, arith, true, false, some, none, [], ◌∷◌, test_bit, word_and, word_and_not,
}
use ss_sbl.Link.Consts.{enoent, eexist}
use ss_sbl.Serdes.Configs.{
  Config, ConfigKey, Configs, ScValues, serdes_config_magic, is_match, get_serdes_config_values,
  add_config, del_config, has_key, same_key, scope_of, num_bits_set, bits_from, narrower, best_of,
}
use ss_sbl.Serdes.Configs.Choice.{Every, Chosen, get_serdes_config_values-best}
use ss_sbl.Serdes.Configs.Unique.{IsUnique, Change, change, change-IsUnique, del_config-add_config}

abbrev for_ports : ℕ → ConfigKey
for_ports mask = record {
  tp_state_mask0 = 15;
  tp_state_mask1 = 0;
  tp_state_match0 = 3;
  tp_state_match1 = 0;
  port_mask = mask;
  serdes_mask = 15;
}

abbrev vals : ℕ → ScValues
vals n = record {
  magic = serdes_config_magic;
  atten = n;
  pre = 0;
  post = 0;
  pre2 = 0;
  pre3 = 0;
  gs1 = 0;
  gs2 = 0;
  num_intr = 0;
  intr_val = [];
  data_val = [];
}

abbrev entry : ℕ → ℕ → Config
entry mask n = record { key = for_ports mask; vals = vals n; is_default = false; tag = n }

abbrev listed : Configs
listed = record { list = entry 255 1 ∷ entry 8 2 ∷ []; next_tag = 2 }

-- Port 3 gets the entry of its own, which stands behind the other.
own_entry : get_serdes_config_values 3 0 2 0 listed.list ≡ (0, some (vals 2))
unfolding get_serdes_config_values best_of is_match narrower scope_of num_bits_set bits_from
    test_bit word_and word_and_not
own_entry = refl

get_serdes_config_values-best_example :
    ((get_serdes_config_values 3 0 2 0 listed.list ≡ (enoent, none))
      × Every (λ d. is_match 3 0 2 0 d.key ≡ false) listed.list)
    ⊎ ((c : Config) × Chosen (is_match 3 0 2 0) listed.list c
        × (get_serdes_config_values 3 0 2 0 listed.list ≡ (0, some c.vals)))
get_serdes_config_values-best_example =
    get_serdes_config_values-best 3 0 2 0 listed.list (omega arith, (omega arith, tt))

keys_apart : (has_key (for_ports 255) (entry 8 2 ∷ []) ≡ false) × (has_key (for_ports 8) [] ≡ false)
unfolding has_key same_key
keys_apart = (refl, refl)

change-IsUnique_example :
    IsUnique (change (Change.add true (for_ports 16) (vals 3) false) listed).0.list
change-IsUnique_example =
    change-IsUnique (Change.add true (for_ports 16) (vals 3) false) listed
      (keys_apart.0, (keys_apart.1, tt))

new_key : has_key (for_ports 16) listed.list ≡ false
unfolding has_key same_key
new_key = refl

del_config-add_config_example :
    let added = (add_config true (for_ports 16) (vals 3) false listed).0 in
    ((add_config true (for_ports 16) (vals 3) false listed).1 ≡ 0)
    × ((del_config (for_ports 16) added).0.list ≡ listed.list)
    × ((del_config (for_ports 16) added).1 ≡ 0)
    × ((add_config true (for_ports 16) (vals 3) false added).1 ≡ eexist)
    × ((add_config true (for_ports 16) (vals 3) false added).0.list ≡ added.list)
del_config-add_config_example =
    del_config-add_config (for_ports 16) (vals 3) false listed refl new_key
