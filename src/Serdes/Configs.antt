-- ===== src/Serdes/Configs.antt =====
-- The list of serdes configurations of an instance: sbl_serdes_add_config, sbl_serdes_del_config and
-- sbl_serdes_clear_all_configs (drivers/net/ethernet/hpe/sbl/sbl_serdes.c), and the choice of an entry for
-- a serdes, sbl_get_serdes_config_values (sbl_serdes_fn.c).
pub mod Choice
pub mod Unique
mod Tests
use ss_sbl.Prelude.{
  ℕ, zero, suc, ◌+◌, ◌^◌, ◌%◌, ◌==◌, ltb, Bool, true, false, not, ◌&&◌, ◌||◌, if◌then◌else◌, Option,
  none, some, List, [], ◌∷◌, test_bit, word_and, word_and_not,
}
use ss_sbl.Kernel.{u32}
use ss_sbl.Link.Consts.{einval, enoent, eexist, enomem}

-- struct sbl_sc_values
pub record ScValues : Type 0 where
  pub magic : ℕ
  pub atten : ℕ
  pub pre : ℕ
  pub post : ℕ
  pub pre2 : ℕ
  pub pre3 : ℕ
  pub gs1 : ℕ
  pub gs2 : ℕ
  pub num_intr : ℕ
  pub intr_val : List ℕ
  pub data_val : List ℕ

-- What an entry is found by: the masks, the values to match, and the ports and serdes it is for
pub record ConfigKey : Type 0 where
  pub tp_state_mask0 : ℕ
  pub tp_state_mask1 : ℕ
  pub tp_state_match0 : ℕ
  pub tp_state_match1 : ℕ
  pub port_mask : ℕ
  pub serdes_mask : ℕ

-- struct sbl_serdes_config
pub record Config : Type 0 where
  pub key : ConfigKey
  pub vals : ScValues
  pub is_default : Bool
  pub tag : ℕ

-- sbl->serdes_config_list, and sbl_next_serdes_config_tag as a `u32`
pub record Configs : Type 0 where
  pub list : List Config
  pub next_tag : ℕ

-- SBL_SERDES_CONFIG_MAGIC
abbrev pub serdes_config_magic : ℕ
serdes_config_magic = 0x63736d76

-- The test by which an entry is found
unfoldable pub same_key : ConfigKey → ConfigKey → Bool
same_key a b =
    a.port_mask == b.port_mask
    && a.serdes_mask == b.serdes_mask
    && a.tp_state_mask0 == b.tp_state_mask0
    && a.tp_state_mask1 == b.tp_state_mask1
    && a.tp_state_match0 == b.tp_state_match0
    && a.tp_state_match1 == b.tp_state_match1

unfoldable pub has_key : ConfigKey → List Config → Bool
has_key k [] = false
has_key k (c ∷ cs) = same_key c.key k || has_key k cs

-- sbl_serdes_get_config_tag
unfoldable pub get_config_tag : Configs → Configs × ℕ
get_config_tag s = (record s { next_tag = u32 (s.next_tag + 1) }, u32 (s.next_tag + 1))

-- sbl_serdes_add_config, behind the validation; `allocated` tells that kmalloc gives memory.
unfoldable pub add_config : Bool → ConfigKey → ScValues → Bool → Configs → Configs × ℕ
add_config allocated k vals is_default s =
    if not (vals.magic == serdes_config_magic)
    then (s, einval)
    else if not allocated
    then (s, enomem)
    else (let (s', tag) = get_config_tag s in
        if has_key k s'.list then (s', eexist) else (
          record s' {
            list = record { key = k; vals = vals; is_default = is_default; tag = tag } ∷ s'.list;
          },
          0,
        ))

-- The loop of sbl_serdes_del_config: the list without the first entry with the key, if there is one
unfoldable pub remove_key : ConfigKey → List Config → Option (List Config)
remove_key k [] = none
remove_key k (c ∷ cs) =
    let rest = remove_key k cs in
    if same_key c.key k then some cs else elim rest [ none ↦ none | some cs' ↦ some (c ∷ cs') ]

-- sbl_serdes_del_config, behind the validation
unfoldable pub del_config : ConfigKey → Configs → Configs × ℕ
del_config k s = elim (remove_key k s.list) [
  | none ↦ (s, enoent)
  | some cs ↦ (record s { list = cs }, 0)
]

-- The loop of sbl_serdes_clear_all_configs
unfoldable pub keep_defaults : Bool → List Config → List Config
keep_defaults clr_default [] = []
keep_defaults clr_default (c ∷ cs) =
    let rest = keep_defaults clr_default cs in
    if not c.is_default || clr_default then rest else c ∷ rest

-- sbl_serdes_clear_all_configs, behind the validation
unfoldable pub clear_all_configs : Bool → Configs → Configs × ℕ
clear_all_configs clr_default s = (record s { list = keep_defaults clr_default s.list }, 0)

-- sbl_num_bits_set: the loop over the bits i, ...
unfoldable pub bits_from : ℕ → ℕ → ℕ → ℕ
bits_from zero i val = 0
bits_from (suc n) i val = (if test_bit i val then 1 else 0) + bits_from n (i + 1) val

unfoldable pub num_bits_set : ℕ → ℕ
num_bits_set val = bits_from 64 0 val

-- How specific an entry is: the ports and the serdes that it is for, and the bits of its masks
pub record Scope : Type 0 where
  pub ports : ℕ
  pub serdes : ℕ
  pub masks : ℕ

unfoldable pub scope_of : ConfigKey → Scope
scope_of k = record {
  ports = num_bits_set k.port_mask;
  serdes = num_bits_set k.serdes_mask;
  masks = num_bits_set k.tp_state_mask0 + num_bits_set k.tp_state_mask1;
}

-- `curr_best`
unfoldable pub narrower : Scope → Scope → Bool
narrower a b =
    ltb a.ports b.ports
    || (a.ports == b.ports
        && (ltb a.serdes b.serdes || (a.serdes == b.serdes && ltb b.masks a.masks)))

-- Is the entry one for the port, the serdes and the hashes?
unfoldable pub is_match : ℕ → ℕ → ℕ → ℕ → ConfigKey → Bool
is_match port serdes hash0 hash1 k =
    test_bit port k.port_mask
    && test_bit serdes k.serdes_mask
    && word_and_not 64 (word_and 64 k.tp_state_mask0 hash0)
        (word_and 64 k.tp_state_mask0 k.tp_state_match0)
      == 0
    && word_and_not 64 (word_and 64 k.tp_state_mask1 hash1)
        (word_and 64 k.tp_state_mask1 k.tp_state_match1)
      == 0

-- The best entry so far, and its scope
pub record Best : Type 0 where
  pub scope : Scope
  pub entry : Option Config

abbrev pub best_with : Config → Best
best_with c = record { scope = scope_of c.key; entry = some c }

-- The loop of sbl_get_serdes_config_values, with the test of an entry
unfoldable pub best_of : (ConfigKey → Bool) → List Config → Best → Best
best_of test [] best = best
best_of test (c ∷ cs) best =
    best_of test cs
      (if test c.key && narrower (scope_of c.key) best.scope then best_with c else best)

-- The scope that the loop begins with
abbrev pub widest : Scope
widest = record { ports = 64; serdes = 64; masks = 0 }

-- The result for the best entry that there is
abbrev pub result_of : Best → ℕ × Option ScValues
result_of b = elim b.entry [ none ↦ (enoent, none) | some c ↦ (0, some c.vals) ]

-- sbl_get_serdes_config_values: the error and the values
unfoldable pub get_serdes_config_values : ℕ → ℕ → ℕ → ℕ → List Config → ℕ × Option ScValues
get_serdes_config_values port serdes hash0 hash1 cs =
    result_of
      (best_of (is_match port serdes hash0 hash1) cs (record { scope = widest; entry = none }))
