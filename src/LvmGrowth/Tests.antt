-- ===== src/LvmGrowth/Tests.antt =====
-- Volumes of a group that grow, a thin pool that gets its metadata, and the order of volumes.
use blivet.Prelude.{
  Bool, List, ◌↔◌, none, ◌≡◌, refl, true, some, ok, arith, pos, ◌+ℤ◌, ◌-ℤ◌, [], ◌∷◌,
}
use blivet.Volumes.Space.{
  Volume, VolumeGroup, free_space, vg_size, used_space, reserved_space, pv_usable_space,
  pmspare_size, vg_space_used, data_vg_space_used, metadata_vg_space_used, raided_size,
}
use blivet.Volumes.Resize.{set_size, check_limits}
use blivet.Volumes.Room.{IsLinear}
use blivet.Volumes.Sample.{exact, exact-Aligns, group, root}
use blivet.Growth.Sample
use blivet.Growth.Chunk.{add_requests, add_request, max_growth}
use blivet.Growth.Grow.{
  grow_requests, grow_passes, grow_each, grow_leftover, finish, grow_request,
  trim_over_grown_request, sort_requests,
}
use blivet.Placement.Compare.{less, more}
use blivet.LvmGrowth.Compare.{lv_compare, sort_lvs}
use blivet.LvmGrowth.Before.{ComesFirst, lv_compare-ComesFirst}
use blivet.LvmGrowth.Sorted.{IsInOrder, count, sort_lvs-sorts}
use blivet.LvmGrowth.Request.{lv_request, lv_requests, vg_chunk}
use blivet.LvmGrowth.Grow.{for_each, apply_growth, grow_regular}
use blivet.LvmGrowth.Thin.{settle_metadata, autoset_md_size, recommend_thpool_chunk_size}
use blivet.LvmGrowth.Safe.{Fits, grow_regular-Fits}

-- One volume that grows up to 100 bytes, and one that grows without limit.
abbrev home : Volume
home = record root { id = 11; size = 20; req_size = 20; req_grow = some true }

abbrev limited : Volume
limited = record root { req_grow = some true; req_max_size = 100 }

abbrev two : VolumeGroup
two = record group { lvs = home ∷ limited ∷ [] }

abbrev two_grown : VolumeGroup
two_grown = record group { lvs = record home { size = 100 } ∷ record limited { size = 100 } ∷ [] }

grown : grow_regular exact Sample.exact 10 two ≡ ok two_grown
unfolding grow_regular sort_lvs lv_compare lv_requests lv_request vg_chunk add_requests add_request
    grow_requests grow_passes grow_each grow_leftover finish grow_request trim_over_grown_request
    sort_requests max_growth apply_growth set_size check_limits free_space vg_size used_space
    reserved_space pv_usable_space pmspare_size vg_space_used data_vg_space_used
    metadata_vg_space_used raided_size ◌+ℤ◌ ◌-ℤ◌
grown = refl

home-IsLinear : IsLinear home
home-IsLinear = record { planned = refl; not_thin = refl; not_vdo = refl; not_raid = refl }

limited-IsLinear : IsLinear limited
limited-IsLinear = record { planned = refl; not_thin = refl; not_vdo = refl; not_raid = refl }

two-Fits : Fits exact two
unfolding free_space vg_size used_space reserved_space pv_usable_space pmspare_size vg_space_used
    data_vg_space_used metadata_vg_space_used raided_size ◌+ℤ◌ ◌-ℤ◌
two-Fits = (((home-IsLinear, refl), ((limited-IsLinear, refl), tt)), pos 120, refl, omega arith)

grow_regular-Fits_example : Fits exact two_grown
grow_regular-Fits_example = grow_regular-Fits exact Sample.exact 10 two exact-Aligns two-Fits grown

-- A thin pool of 100 bytes, whose metadata take 8, and the spare copy of them as much: the pool pays for
-- the spare copy twice.
abbrev pool : Volume
pool = record root { size = 100; is_thin_pool = true }

abbrev settled : Volume
settled = record pool { size = 76; metadata_size = 8; chunk_size = 65536 }

settled_twice :
    settle_metadata exact (λ s c. 8) (record group { lvs = pool ∷ [] }) pool
    ≡ ok (record group { lvs = settled ∷ [] })
unfolding settle_metadata autoset_md_size recommend_thpool_chunk_size for_each set_size check_limits
    pmspare_size ◌+ℤ◌ ◌-ℤ◌
settled_twice = refl

-- Of two as large that grow, the one without a limit comes first; and one that was never asked whether it
-- grows comes before one that does not.
abbrev unlimited_root : Volume
unlimited_root = record limited { req_max_size = 0 }

abbrev no_wish : Volume
no_wish = record root { req_grow = none }

wider_first : lv_compare unlimited_root limited ≡ less
unfolding lv_compare ◌+ℤ◌ ◌-ℤ◌
wider_first = refl

no_wish_first : lv_compare no_wish root ≡ less
unfolding lv_compare ◌+ℤ◌ ◌-ℤ◌
no_wish_first = refl

lv_compare-ComesFirst_example :
    ((lv_compare unlimited_root limited ≡ less) ↔ ComesFirst unlimited_root limited)
    × ((lv_compare unlimited_root limited ≡ more) ↔ ComesFirst limited unlimited_root)
lv_compare-ComesFirst_example = lv_compare-ComesFirst unlimited_root limited

abbrev volumes : List Volume
volumes = home ∷ limited ∷ unlimited_root ∷ no_wish ∷ []

sort_four : sort_lvs volumes ≡ no_wish ∷ unlimited_root ∷ limited ∷ home ∷ []
unfolding sort_lvs lv_compare ◌+ℤ◌ ◌-ℤ◌
sort_four = refl

sort_lvs-sorts_example :
    IsInOrder (sort_lvs volumes)
    × ((test : Volume → Bool) → count test (sort_lvs volumes) ≡ count test volumes)
sort_lvs-sorts_example = sort_lvs-sorts volumes
