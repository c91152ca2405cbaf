-- ===== src/Serdes/Configs/Unique.antt =====
-- No two entries of the list have the same key, and an entry that is added can be removed again.
use ss_sbl.Prelude.{
  ℕ, ◌+◌, ◌≡◌, ◌≢◌, refl, sym, ap, subst, ◌∙◌, ◌⊎◌, inl, inr, Bool, true, false, not, ◌||◌, ◌==◌,
  Bool-cases, if_true, if_false, if_rec, if_cases, Option, none, some, List, [], ◌∷◌, arith,
}
use ss_sbl.Kernel.{u32}
use ss_sbl.Link.Consts.{enoent, eexist}
use ss_sbl.Serdes.Configs.{
  Config, ConfigKey, Configs, ScValues, same_key, has_key, remove_key, keep_defaults,
  get_config_tag, add_config, del_config, clear_all_configs, serdes_config_magic,
}

-- No entry has the key of an entry behind it.
abbrev pub IsUnique : List Config → Type 0
IsUnique [] = Unit
IsUnique (c ∷ cs) = (has_key c.key cs ≡ false) × IsUnique cs

-- The operations on the list
pub data Change : Type 0 where
  add : Bool → ConfigKey → ScValues → Bool → Change
  del : ConfigKey → Change
  clear : Bool → Change

unfoldable pub change : Change → Configs → Configs × ℕ
change (Change.add allocated k vals is_default) s = add_config allocated k vals is_default s
change (Change.del k) s = del_config k s
change (Change.clear clr_default) s = clear_all_configs clr_default s

same_key_refl : (k : ConfigKey) → same_key k k ≡ true
unfolding same_key
same_key_refl k = ground arith

-- The list without an entry that comes later, with its first entry back in front
abbrev put_back : Config → Option (List Config) → Option (List Config)
put_back c o = elim o [ none ↦ none | some cs ↦ some (c ∷ cs) ]

put_back-some :
    (c : Config) (o : Option (List Config)) (cs' : List Config)
    → put_back c o ≡ some cs'
    → (rest : List Config) × (o ≡ some rest) × (cs' ≡ c ∷ rest)
put_back-some c none cs' e = absurd (ground arith)
put_back-some c (some rest) cs' e = (rest, refl, cc)

-- The first entry is removed, or one behind it.
remove_key_cases :
    (k : ConfigKey) (c : Config) (cs cs' : List Config)
    → remove_key k (c ∷ cs) ≡ some cs'
    → (cs' ≡ cs) ⊎ ((rest : List Config) × (remove_key k cs ≡ some rest) × (cs' ≡ c ∷ rest))
unfolding remove_key
remove_key_cases k c cs cs' e = elim (Bool-cases (same_key c.key k)) [
  | inl same ↦ inl (cc (e, if_true (some cs) (put_back c (remove_key k cs)) same))
  | inr other ↦ inr (
      put_back-some c (remove_key k cs) cs'
        (sym (if_false (some cs) (put_back c (remove_key k cs)) other) ∙ e))
]

remove_key-nothing : (k : ConfigKey) (cs' : List Config) → remove_key k [] ≢ some cs'
unfolding remove_key
remove_key-nothing k cs' e = absurd (ground arith)

remove_key-has_key :
    (k j : ConfigKey) (cs cs' : List Config)
    → remove_key k cs ≡ some cs'
    → has_key j cs ≡ false
    → has_key j cs' ≡ false
unfolding has_key
remove_key-has_key k j [] cs' e h = absurd (remove_key-nothing k cs' e)
remove_key-has_key k j (c ∷ cs) cs' e h = elim (remove_key_cases k c cs cs' e) [
  | inl same ↦ ap (has_key j) same ∙ ground arith
  | inr (rest, q, same) ↦
      let ih = remove_key-has_key k j cs rest q (ground arith) in ap (has_key j) same ∙ ground arith
]

remove_key-IsUnique :
    (k : ConfigKey) (cs cs' : List Config) → remove_key k cs ≡ some cs' → IsUnique cs → IsUnique cs'
remove_key-IsUnique k [] cs' e u = absurd (remove_key-nothing k cs' e)
remove_key-IsUnique k (c ∷ cs) cs' e (n, u) = elim (remove_key_cases k c cs cs' e) [
  | inl same ↦ subst IsUnique (sym same) u
  | inr (rest, q, same) ↦
      subst IsUnique (sym same)
        (remove_key-has_key k c.key cs rest q n, remove_key-IsUnique k cs rest q u)
]

keep_defaults-has_key :
    (clr : Bool) (j : ConfigKey) (cs : List Config)
    → has_key j cs ≡ false
    → has_key j (keep_defaults clr cs) ≡ false
unfolding keep_defaults has_key
keep_defaults-has_key clr j [] h = refl
keep_defaults-has_key clr j (c ∷ cs) h =
    let rest = keep_defaults-has_key clr j cs (ground arith) in
    if_rec (λ (l : List Config). has_key j l ≡ false) (not c.is_default || clr) rest (ground arith)

keep_defaults-IsUnique :
    (clr : Bool) (cs : List Config) → IsUnique cs → IsUnique (keep_defaults clr cs)
unfolding keep_defaults
keep_defaults-IsUnique clr [] u = tt
keep_defaults-IsUnique clr (c ∷ cs) (n, u) =
    let rest = keep_defaults-IsUnique clr cs u in
    if_rec IsUnique (not c.is_default || clr) rest (keep_defaults-has_key clr c.key cs n, rest)

-- The state with its next tag used up
abbrev tagged : Configs → Configs
tagged s = record s { next_tag = u32 (s.next_tag + 1) }

add_config-IsUnique :
    (allocated : Bool) (k : ConfigKey) (vals : ScValues) (is_default : Bool) (s : Configs)
    → IsUnique s.list
    → IsUnique (add_config allocated k vals is_default s).0.list
unfolding add_config get_config_tag
add_config-IsUnique allocated k vals is_default s u =
    if_rec (λ (p : Configs × ℕ). IsUnique p.0.list) (not (vals.magic == serdes_config_magic)) u
      (if_rec (λ (p : Configs × ℕ). IsUnique p.0.list) (not allocated) u
        (if_cases (λ (p : Configs × ℕ). IsUnique p.0.list) (has_key k s.list) (λ e. u)
          (λ new. (new, u))))

del_config-IsUnique :
    (k : ConfigKey) (s : Configs) → IsUnique s.list → IsUnique (del_config k s).0.list
unfolding del_config
del_config-IsUnique k s u =
    elim (remove_key k s.list)
        as (λ o.
          remove_key k s.list ≡ o
          → IsUnique
              (elim o as (λ x. Configs × ℕ) [
                | none ↦ (s, enoent)
                | some cs ↦ (record s { list = cs }, 0)
              ]).0.list) [ none ↦ λ e. u | some cs ↦ λ e. remove_key-IsUnique k s.list cs e u ]
      refl

-- Every change of the list of configurations keeps its keys apart: an entry is added, refused since its
-- key is there, its values are bad or there is no memory, deleted or not found, or the list is cleared
-- with or without the default entries.
pub change-IsUnique : (c : Change) (s : Configs) → IsUnique s.list → IsUnique (change c s).0.list
unfolding change clear_all_configs
change-IsUnique (Change.add allocated k vals is_default) s u =
    add_config-IsUnique allocated k vals is_default s u
change-IsUnique (Change.del k) s u = del_config-IsUnique k s u
change-IsUnique (Change.clear clr_default) s u = keep_defaults-IsUnique clr_default s.list u

-- The list with a new entry, which gets the next tag
abbrev with_entry : ConfigKey → ScValues → Bool → Configs → Configs
with_entry k vals is_default s = record (tagged s) {
  list =
      record { key = k; vals = vals; is_default = is_default; tag = (tagged s).next_tag } ∷ s.list;
}

module _ (k : ConfigKey) (vals : ScValues) (is_default : Bool) (s : Configs) where
  add_config-new :
      vals.magic ≡ serdes_config_magic
      → has_key k s.list ≡ false
      → add_config true k vals is_default s ≡ (with_entry k vals is_default s, 0)
  unfolding add_config get_config_tag
  add_config-new m n =
      let valid : not (vals.magic == serdes_config_magic) ≡ false = ground arith in
      if_false _ _ valid ∙ if_false _ _ n

  add_config-known :
      vals.magic ≡ serdes_config_magic
      → has_key k s.list ≡ true
      → add_config true k vals is_default s ≡ (tagged s, eexist)
  unfolding add_config get_config_tag
  add_config-known m n =
      let valid : not (vals.magic == serdes_config_magic) ≡ false = ground arith in
      if_false _ _ valid ∙ if_true _ _ n

  has_key-with_entry : has_key k (with_entry k vals is_default s).list ≡ true
  unfolding has_key
  has_key-with_entry = let same = same_key_refl k in ground arith

  del_config-with_entry : del_config k (with_entry k vals is_default s) ≡ (tagged s, 0)
  unfolding del_config remove_key
  del_config-with_entry =
      let e = with_entry k vals is_default s in
      let q : remove_key k e.list ≡ some s.list = if_true _ _ (same_key_refl k) in
      ap
        (λ (o : Option (List Config)). elim o as (λ x. Configs × ℕ) [
          | none ↦ (e, enoent)
          | some cs ↦ (record e { list = cs }, 0)
        ])
        q

-- An entry with valid values whose key is new is added, and deleting its key gives the list back. Adding
-- it twice is refused with -EEXIST and changes nothing of the list.
pub del_config-add_config :
    (k : ConfigKey) (vals : ScValues) (is_default : Bool) (s : Configs)
    → vals.magic ≡ serdes_config_magic
    → has_key k s.list ≡ false
    → let added = (add_config true k vals is_default s).0 in
      ((add_config true k vals is_default s).1 ≡ 0)
      × ((del_config k added).0.list ≡ s.list)
      × ((del_config k added).1 ≡ 0)
      × ((add_config true k vals is_default added).1 ≡ eexist)
      × ((add_config true k vals is_default added).0.list ≡ added.list)
del_config-add_config k vals is_default s m n =
    let added = with_entry k vals is_default s in
    let again =
      add_config-known k vals is_default added m (has_key-with_entry k vals is_default s) in
    let gone = del_config-with_entry k vals is_default s in
    rw (add_config-new k vals is_default s m n) (
      refl,
      ap (λ (p : Configs × ℕ). p.0.list) gone,
      ap (λ (p : Configs × ℕ). p.1) gone,
      ap (λ (p : Configs × ℕ). p.1) again,
      ap (λ (p : Configs × ℕ). p.0.list) again,
    )
