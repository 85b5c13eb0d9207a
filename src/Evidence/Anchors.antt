-- ===== src/Evidence/Anchors.antt =====
-- supervisor/evidence.py: the two ways in which the code judges the links between archives.
use plan_auditor.Base.{
  ℕ, ◌+◌, Bool, true, false, not, ◌&&◌, List, [], ◌∷◌, ◌≡◌, refl, any, all, if◌then◌else◌, arith,
}
use plan_auditor.Evidence.Archives.{
  ArchiveItem, ArchiveManifest, is_false, is_some, links_hold, anchored, break_behind, break_from,
  first_break, verify_anchor_chain,
}

abbrev is_broken : ArchiveItem → Bool
is_broken item = is_false item.chain_valid

links-break_behind :
    (item : ArchiveItem) (index : ℕ) (items : List ArchiveItem)
    → (not (any is_broken items) && links_hold (item ∷ items))
      ≡ not (is_some (break_behind item index items))
unfolding links_hold break_behind
links-break_behind item index [] = refl
links-break_behind item index (next ∷ items) =
    ground (arith, links-break_behind next (index + 1) items)

links-break_from :
    (items : List ArchiveItem)
    → (if any is_broken items then false else links_hold items) ≡ not (is_some (break_from items))
unfolding links_hold break_from
links-break_from [] = refl
links-break_from (item ∷ items) = ground (arith, links-break_behind item 1 items)

all_whole :
    (items : List ArchiveItem)
    → all (λ item. not (is_broken item)) items ≡ not (any is_broken items)
all_whole [] = refl
all_whole (item ∷ items) = ground (arith, all_whole items)

-- The manifest is anchored exactly where no break is found, and then the integrity is fine too.
pub anchored-first_break :
    (m : ArchiveManifest)
    → (anchored m ≡ not (is_some (first_break m)))
      × (anchored m ≡ true → (verify_anchor_chain m).integrity_ok ≡ true)
unfolding anchored first_break verify_anchor_chain
anchored-first_break m =
    (ground (arith, links-break_from m.archives), λ h. ground (arith, all_whole m.archives))
