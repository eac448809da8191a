-- ===== src/Status/Attach.antt =====
-- The status block that `statblock_attach` of lib/statblock.c hands out.
use rmsgw.Prelude.{
  ℕ, zero, suc, ◌≡◌, refl, sym, ap, ◌∙◌, ◌⊎◌, inl, inr, Bool, true, false, Option, none, some,
  Bool-cases, replicate, All, strneq,
}
use mathlib.Core.Path.{subst}
use rmsgw.Status.Slots.{Named, is_empty}
use rmsgw.Status.Slots.Views.{IsPacked}
use rmsgw.Status.Block.{
  RmsStatus, gw_named, aci_named, maxgwcall, rms_maxhostname, has_magic, initial_block,
  statblock_attach, zero_gw, zero_host, rms_shm_magic,
}
use rmsgw.Status.Gateways.{IsGwTable}
use rmsgw.Status.AciHosts.{IsHostTable}

module _ {E : Type 0} (n : Named E) (width : ℕ) (e : E) (h : is_empty n width e ≡ true) where
  All-replicate : (k : ℕ) → All (λ d. is_empty n width d ≡ true) (replicate k e)
  All-replicate zero = tt
  All-replicate (suc k) = (h, All-replicate k)

  IsPacked-replicate : (k : ℕ) → IsPacked n width (replicate k e)
  IsPacked-replicate zero = tt
  IsPacked-replicate (suc k) = ((λ _. All-replicate k), IsPacked-replicate k)

pub initial_block-IsGwTable : IsGwTable initial_block
unfolding initial_block is_empty strneq
initial_block-IsGwTable = record {
  size = refl;
  packed = IsPacked-replicate gw_named maxgwcall zero_gw refl 10;
}

pub initial_block-IsHostTable : IsHostTable initial_block
unfolding initial_block is_empty strneq
initial_block-IsHostTable = record {
  size = refl;
  packed = IsPacked-replicate aci_named rms_maxhostname zero_host refl 10;
}

initial_block-magic : has_magic initial_block ≡ true
unfolding initial_block strneq
initial_block-magic = refl

fresh_tables :
    {block : RmsStatus}
    → some initial_block ≡ some block
    → IsGwTable block × IsHostTable block × (has_magic block ≡ true)
fresh_tables {block = block} e =
    let same : initial_block ≡ block = cc in
    (
      subst IsGwTable same initial_block-IsGwTable,
      subst IsHostTable same initial_block-IsHostTable,
      subst (λ b. has_magic b ≡ true) same initial_block-magic,
    )

-- The block that `statblock_attach` returns is the segment as it was, and then the caller did not make
-- the segment or its magic number was there; or the caller made it, its magic number was not there, and
-- the block has the magic number and both tables in their size and filled from the front.
pub statblock_attach_lem :
    (made : Option Bool) (segment : Option RmsStatus) {block : RmsStatus}
    → statblock_attach made segment ≡ some block
    → ((segment ≡ some block) × ((made ≡ some false) ⊎ (has_magic block ≡ true)))
      ⊎ ((old : RmsStatus) × (segment ≡ some old)
          × (made ≡ some true)
          × (has_magic old ≡ false)
          × (has_magic block ≡ true)
          × IsGwTable block
          × IsHostTable block)
unfolding statblock_attach
statblock_attach_lem none segment e = cc
statblock_attach_lem (some must_init) none e = cc
statblock_attach_lem (some false) (some old) e = inl (e, inl refl)
statblock_attach_lem (some true) (some old) {block = block} e =
    elim (Bool-cases (strneq old.rms_hdr_magic rms_shm_magic 8)) [
      | inl same ↦
          let kept : some old ≡ some block = rw same at e in
          let equal : old ≡ block = cc in inl (kept, inr (ap has_magic (sym equal) ∙ same))
      | inr other ↦
          let (g, h, m) = fresh_tables (rw other at e) in inr (old, refl, refl, other, m, g, h)
    ]
