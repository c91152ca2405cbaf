-- ===== src/Link/Port.antt =====
-- The validation of the instance and of the port number that the entry points begin with
-- (include/linux/hpe/sbl/sbl.h, drivers/net/ethernet/hpe/sbl/sbl_internal.c), and what an operation
-- on one port does to the link database.
use ss_sbl.Prelude.{
  ℕ, ◌≡◌, ◌≢◌, refl, Option, none, some, ℤ, pos, negsuc, ltb, ◌==◌, if◌then◌else◌, get_elem?, set,
  get_elem?-set_ne, Bool-cases, inl, inr,
}
use ss_sbl.Link.{Link, Inst}
use ss_sbl.Link.Consts.{einval, sbl_magic}

-- sbl_validate_instance; `none` is the null pointer.
unfoldable pub validate_instance : Option Inst → ℕ
validate_instance none = einval
validate_instance (some sbl) = if sbl.magic == sbl_magic then 0 else einval

-- sbl_validate_port_num
unfoldable pub validate_port_num : Inst → ℤ → ℕ
validate_port_num sbl (pos port) = if ltb port sbl.num_ports then 0 else einval
validate_port_num sbl (negsuc n) = einval

-- `sbl->link + port_num`, once the port number has passed validation
abbrev pub port_index : ℤ → ℕ
port_index (pos port) = port
port_index (negsuc n) = 0

-- The operation on one port: `body` updates the link record and returns. Where the database has no
-- such record, which `num_ports` rules out, nothing is done.
unfoldable pub update_link {ℓ} : {A : Type ℓ} → Inst → ℕ → A → (Link → Link × A) → Inst × A
update_link sbl port fault body = elim (get_elem? sbl.links port) [
  | none ↦ (sbl, fault)
  | some l ↦ (record sbl { links = set sbl.links port (body l).0 }, (body l).1)
]

-- An entry point: the two validations, each with its early return, then the body. `refuse` is what
-- the entry point returns when a validation fails with that error.
unfoldable pub on_port {ℓ} :
    {A : Type ℓ} → Option Inst → ℤ → (ℕ → A) → (Link → Link × A) → Option Inst × A
unfolding validate_instance validate_port_num
on_port none port refuse body = (none, refuse (validate_instance none))
on_port (some sbl) port refuse body =
    if validate_instance (some sbl) == 0
    then if validate_port_num sbl port == 0
      then (let (sbl', a) = update_link sbl (port_index port) (refuse einval) body in
          (some sbl', a))
      else (some sbl, refuse (validate_port_num sbl port))
    else (some sbl, refuse (validate_instance (some sbl)))

-- The record of a port, through the instance pointer.
abbrev pub link_at : Option Inst → ℕ → Option Link
link_at none j = none
link_at (some sbl) j = get_elem? sbl.links j

link_at-update_link {ℓ} :
    {A : Type ℓ} (sbl : Inst) (port : ℕ) (fault : A) (body : Link → Link × A) (j : ℕ)
    → port ≢ j
    → link_at (some (update_link sbl port fault body).0) j ≡ link_at (some sbl) j
unfolding update_link
link_at-update_link {A = A} sbl port fault body j ne = links (get_elem? sbl.links port)
  where
    links :
        (o : Option Link)
        → get_elem?
            (elim o as (λ _. Inst × A) [
              | none ↦ (sbl, fault)
              | some l ↦ (record sbl { links = set sbl.links port (body l).0 }, (body l).1)
            ]).0.links
            j
          ≡ get_elem? sbl.links j
    links none = refl
    links (some l) = get_elem?-set_ne sbl.links (body l).0 ne

-- An entry point called for one port leaves the record of every other port as it was, whatever the
-- operation does and whether or not the instance and the port number pass validation.
pub on_port_isolated {ℓ} :
    {A : Type ℓ} (sbl : Option Inst) (port : ℤ) (refuse : ℕ → A) (body : Link → Link × A) (j : ℕ)
    → port_index port ≢ j
    → link_at (on_port sbl port refuse body).0 j ≡ link_at sbl j
unfolding on_port
on_port_isolated none port refuse body j ne = refl
on_port_isolated (some sbl) port refuse body j ne =
    elim (Bool-cases (validate_instance (some sbl) == 0)) [
      | inr bad ↦ rw bad
      | inl good ↦ elim (Bool-cases (validate_port_num sbl port == 0)) [
        | inr bad ↦ rw (good, bad)
        | inl fine ↦
            rw (good, fine) (link_at-update_link sbl (port_index port) (refuse einval) body j ne)
      ]
    ]
