-- ===== src/Storage/Crash.antt =====
-- What is loaded after a save, and after a crash in the middle of one.
use jt_snmpd.Prelude.{
  Option, Bool-cases, refl, inl, inr, ◌≢◌, ◌≡◌, Bool, true, false, none, some, List, [], ◌∷◌, arith,
  ◌⊎◌,
}
use jt_snmpd.Storage.{
  Content, keep_bak, Write, ends, open_fails, write_fails, replace_fails, try_save, usable, whole,
  torn, Disk, open_tmp, write_tmp, back_up, save, save_steps, load,
}

module _ {ℓ} {A : Type ℓ} where
  abbrev pub All {κ} : (Disk A → Type κ) → List (Disk A) → Type κ
  All P [] = Unit
  All P (d ∷ ds) = P d × All P ds

module _ {A : Type 0} (is_good : A → Bool) (a : A) (good : is_good a ≡ true) where
  -- A save that ends is read back, whatever the files held before and whether or not the .bak could be
  -- written, if the content is one that the loader accepts.
  pub load-save : (fails : Bool) (d : Disk A) → load is_good (save fails a d) ≡ some a
  unfolding load save
  load-save fails d = ground arith

  -- With a usable main file, a crash after any step of a save, the first one included, leaves either
  -- the old content or the new one to be loaded.
  pub load-save_steps :
      (fails : Bool) (d : Disk A) (old : A)
      → d.main ≡ some (whole old)
      → is_good old ≡ true
      → All (λ d'. (load is_good d' ≡ some old) ⊎ (load is_good d' ≡ some a)) (save_steps fails a d)
  unfolding load save_steps
  load-save_steps true d old e g = ground arith
  load-save_steps false d old e g = ground arith

  -- With a damaged main file and a usable .bak, which is what the loaders recover from, there is a
  -- moment in which a crash loses both: the damaged file has been renamed over the .bak, and the new one
  -- is not in place yet.
  pub damaged_main_lost :
      (d : Disk A) (old : A)
      → d.main ≡ some torn
      → d.bak ≡ some (whole old)
      → is_good old ≡ true
      → (load is_good d ≡ some old)
        × (load is_good (back_up false (write_tmp a (open_tmp d))) ≡ none)
  unfolding load back_up write_tmp open_tmp
  damaged_main_lost d old e f g = ground arith

  load-keep_bak :
      (bak_fails : Bool) (d : Disk A) (m : Option (Content A))
      → d.main ≡ m
      → (load is_good (keep_bak bak_fails d m) ≡ load is_good d)
        ⊎ ((m ≢ none) × (usable is_good m ≡ none) × (load is_good (keep_bak bak_fails d m) ≡ none))
  unfolding load
  load-keep_bak bak_fails d none e = inl refl
  load-keep_bak true d (some c) e = inl refl
  load-keep_bak false d (some torn) e = inr ((λ h. cc), refl, refl)
  load-keep_bak false d (some (whole b)) e = elim (Bool-cases (is_good b)) [
    | inl fine ↦ inl (rw (e, fine) refl)
    | inr bad ↦ inr ((λ h. cc), ground arith, ground arith)
  ]

  -- What is loaded after a save that may raise: the new content, if it ends; and otherwise the old content, or
  -- nothing if there was a main file that is no good, which was renamed over the .bak.
  pub load-try_save :
      (w : Write) (d : Disk A)
      → (((try_save w a d).1 ≡ true) × (load is_good (try_save w a d).0 ≡ some a))
        ⊎ (((try_save w a d).1 ≡ false) × (load is_good (try_save w a d).0 ≡ load is_good d))
        ⊎ (((try_save w a d).1 ≡ false)
            × (d.main ≢ none)
            × (usable is_good d.main ≡ none)
            × (load is_good (try_save w a d).0 ≡ none))
  unfolding try_save load back_up write_tmp open_tmp
  load-try_save (ends bak_fails) d = inl (refl, load-save bak_fails d)
  load-try_save open_fails d = inr (inl (refl, refl))
  load-try_save write_fails d = inr (inl (refl, refl))
  load-try_save (replace_fails bak_fails) d =
      elim (load-keep_bak bak_fails (write_tmp a (open_tmp d)) d.main refl) [
        | inl kept ↦ inr (inl (refl, kept))
        | inr lost ↦ inr (inr (refl, lost.0, lost.1, lost.2))
      ]
