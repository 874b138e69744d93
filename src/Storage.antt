-- ===== src/Storage.antt =====
-- The state files of deploy/jt_agent.py and deploy/usm.py: written to a temporary file that is renamed
-- over the main one, which is kept as a .bak. The three savers and loaders have one shape; what makes
-- a content usable is the file's own (`is_good`).
pub mod Crash
use jt_snmpd.Prelude.{Bool, true, false, Option, none, some, List, [], ◌∷◌, if◌then◌else◌}

-- a file's content, or what a write that was cut off left of it
pub data Content {ℓ} (A : Type ℓ) : Type ℓ where
  whole : A → Content A
  torn : Content A

-- the three names that a saver writes; `none` where there is no such file
pub record Disk {ℓ} (A : Type ℓ) : Type ℓ where
  pub main : Option (Content A)
  pub bak : Option (Content A)
  pub tmp : Option (Content A)

-- How a save goes on its disk: it ends, or an `OSError` or `UnicodeError` comes from making the folder or
-- opening the temporary file, from writing it, or from the last rename. The Boolean says whether the rename to
-- the .bak fails, which is passed over.
pub data Write : Type 0 where
  ends : Bool → Write
  open_fails write_fails : Write
  replace_fails : Bool → Write

module _ {ℓ} {A : Type ℓ} where
  -- `with open(tmp, "w")`: the file is there, and not yet all of it
  unfoldable pub open_tmp : Disk A → Disk A
  open_tmp d = record d { tmp = some torn }

  -- after flush and fsync
  unfoldable pub write_tmp : A → Disk A → Disk A
  write_tmp a d = record d { tmp = some (whole a) }

  abbrev pub keep_bak : Bool → Disk A → Option (Content A) → Disk A
  keep_bak fails d none = d
  keep_bak true d (some c) = d
  keep_bak false d (some c) = record d { main = none; bak = some c }

  -- `if os.path.exists(main)`: replace the .bak by it; an `OSError` is passed over
  unfoldable pub back_up : Bool → Disk A → Disk A
  back_up fails d = keep_bak fails d d.main

  -- os.replace(tmp, main)
  unfoldable pub install : Disk A → Disk A
  install d = record d { main = d.tmp; tmp = none }

  -- The disk after each step of a save, the last one first: what a crash can leave.
  unfoldable pub save_steps : Bool → A → Disk A → List (Disk A)
  unfolding open_tmp write_tmp back_up install
  save_steps fails a d =
      let opened = open_tmp d in
      let written = write_tmp a opened in
      let kept = back_up fails written in install kept ∷ kept ∷ written ∷ opened ∷ d ∷ []

  -- a save in which no call raises
  unfoldable pub save : Bool → A → Disk A → Disk A
  unfolding open_tmp write_tmp back_up install
  save fails a d = install (back_up fails (write_tmp a (open_tmp d)))

  -- A save that may raise, and whether it ends: with `_save_index_map` an exception goes no further.
  unfoldable pub try_save : Write → A → Disk A → Disk A × Bool
  unfolding open_tmp write_tmp back_up save
  try_save (ends bak_fails) a d = (save bak_fails a d, true)
  try_save open_fails a d = (d, false)
  try_save write_fails a d = (open_tmp d, false)
  try_save (replace_fails bak_fails) a d = (back_up bak_fails (write_tmp a (open_tmp d)), false)

  -- reading one of the two files: an exception and an unusable content go on to the next
  abbrev pub usable : (A → Bool) → Option (Content A) → Option A
  usable is_good none = none
  usable is_good (some torn) = none
  usable is_good (some (whole a)) = if is_good a then some a else none

  abbrev pub or_else : Option A → Option A → Option A
  or_else none b = b
  or_else (some a) b = some a

  -- `for path in (main, main + ".bak")`
  unfoldable pub load : (A → Bool) → Disk A → Option A
  load is_good d = or_else (usable is_good d.main) (usable is_good d.bak)
