-- ===== src/LoopList.antt =====
-- discovery/looplist.go: the history of the lists that a registry has given. `container/list` is a
-- list from Back (the oldest) to Front (the newest).
pub mod Shape
pub mod Window
pub mod Spacing
use xdiscovery.Prelude.{
  ℕ, ◌≡◌, ℤ, ltb_ℤ, leb_ℤ, sub64, Bool, List, [], ◌∷◌, ◌++◌, Option, none, some, if◌then◌else◌,
  zero, suc, ◌+◌, ◌-◌, ◌≤◌, ◌<◌, refl, sym, ap, ◌∙◌, ◌≢◌, ◌↔◌, ◌⊎◌, inl, inr, true, false, not,
  ◌&&◌, ◌||◌, arith, Bool-cases, Option-cases, pos, negsuc, length, All, In, Text, codes, map,
}
use xdiscovery.Service.{ServiceList}
use xdiscovery.Options.{DegradeOpts}

pub record Elem : Type 0 where
  pub unix_nano : ℤ  -- int64
  pub list : ServiceList

-- The elements of `loopList.list`, Back first.
abbrev pub LoopList : Type 0
LoopList = List Elem

abbrev pub new_loop_list : LoopList
new_loop_list = []

-- `l.list.Back()`
abbrev pub list_back : LoopList → Option Elem
list_back [] = none
list_back (e ∷ l) = some e

-- `l.list.Front()`
unfoldable pub list_front : LoopList → Option Elem
list_front [] = none
list_front (e ∷ []) = some e
list_front (e ∷ e' ∷ l) = list_front (e' ∷ l)

-- `l.list.Remove(l.list.Front())`
unfoldable pub remove_front : LoopList → LoopList
remove_front [] = []
remove_front (e ∷ []) = []
remove_front (e ∷ e' ∷ l) = e ∷ remove_front (e' ∷ l)

module _ {F : Type 0} where
  -- The loop removes the Back while the element before it has left the interval too.
  unfoldable pub del_timeout : ℤ → DegradeOpts F → LoopList → LoopList
  unfolding sub64
  del_timeout now opts [] = []
  del_timeout now opts (el ∷ []) = el ∷ []
  del_timeout now opts (el ∷ prev ∷ l) =
      let rest = del_timeout now opts (prev ∷ l) in
      if leb_ℤ (sub64 now prev.unix_nano) opts.threshold_contrast_interval
      then el ∷ prev ∷ l
      else rest

  -- Within the save interval the Front is replaced, and its time is kept.
  unfoldable pub push_front : Elem → DegradeOpts F → Option Elem → LoopList → LoopList
  unfolding sub64 remove_front
  push_front elnow opts none l = l ++ elnow ∷ []
  push_front elnow opts (some elv) l =
      if ltb_ℤ (sub64 elnow.unix_nano elv.unix_nano) opts.endpoints_save_interval
      then remove_front l ++ record elnow { unix_nano = elv.unix_nano } ∷ []
      else l ++ elnow ∷ []

  unfoldable pub push : Elem → DegradeOpts F → LoopList → LoopList
  unfolding del_timeout push_front list_front
  push elnow opts l =
      let kept = del_timeout elnow.unix_nano opts l in push_front elnow opts (list_front kept) kept

  -- `now` is the clock at the call. The list that is left, and its Back.
  unfoldable pub back : ℤ → DegradeOpts F → LoopList → LoopList × Option Elem
  unfolding del_timeout
  back now opts l = let kept = del_timeout now opts l in (kept, list_back kept)

unfoldable pub reset : LoopList → LoopList
reset l = []

module _ {F : Type 0} where
  unfoldable pub stamp_front : Elem → DegradeOpts F → Option Elem → Elem
  unfolding sub64
  stamp_front elnow opts none = elnow
  stamp_front elnow opts (some elv) =
      if ltb_ℤ (sub64 elnow.unix_nano elv.unix_nano) opts.endpoints_save_interval
      then record elnow { unix_nano = elv.unix_nano }
      else elnow

  -- The pushed object after the call: `push` writes the kept time into it.
  unfoldable pub push_stamp : Elem → DegradeOpts F → LoopList → Elem
  unfolding del_timeout list_front stamp_front
  push_stamp elnow opts l = stamp_front elnow opts (list_front (del_timeout elnow.unix_nano opts l))

  -- Pushes in turn.
  unfoldable pub push_all : List Elem → DegradeOpts F → LoopList → LoopList
  unfolding push
  push_all [] opts l = l
  push_all (e ∷ es) opts l = push_all es opts (push e opts l)
