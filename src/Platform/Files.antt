-- ===== src/Platform/Files.antt =====
-- The files that package os reads and writes, over a world `W`, and what the program relies on.
use kg.Base.{ℕ, Bool, true, false, List, [], Option, none, some, ok, err, Text, ◌≡◌, ◌≢◌}
use kg.Platform.{Error, is_not_found, Io}

pub record Files (W : Type 0) : Type 0 where
  -- `os.ReadFile` and `os.ReadDir`, which gives the names in order
  pub read_file : Text → Io W Text
  pub read_dir : Text → Io W (List Text)
  -- `os.MkdirAll`, `os.CreateTemp` of a directory and a pattern, and `os.Rename`
  pub mkdir_all : Text → Io W (Unit {0})
  pub create_temp : Text → Text → Io W Text
  pub rename : Text → Text → Io W (Unit {0})
  -- `Write`, `Sync` and `Close` of the file that was created under a name
  pub write : Text → Text → Io W (Unit {0})
  pub sync : Text → Io W (Unit {0})
  pub close : Text → Io W (Unit {0})
  -- `os.Remove`
  pub remove : Text → Io W (Unit {0})
  -- `os.Stat`, of which the program looks at the error alone
  pub stat : Text → Io W (Unit {0})
  -- `os.WriteFile`
  pub write_file : Text → Text → Io W (Unit {0})
  -- `filepath.Abs`
  pub abs : Text → Io W Text
  -- `time.Now().UTC()`
  pub now : W → ℕ

-- What the documentation of package os says of a file system whose files `view` shows. The names
-- that `CreateTemp` makes for the pattern are those that `is_temporary` holds of.
pub record IsFileSystem {W : Type 0} (files : Files W) (view : W → Text → Option Text)
    (is_temporary : Text → Bool) (pattern : Text) : Type 0 where
  pub read_file-view : (p t : Text) (w v : W) → files.read_file p w ≡ (ok t, v) → view w p ≡ some t
  pub read_file_missing :
      (p t : Text) (w v : W) (e : Error)
      → files.read_file p w ≡ (err e, v)
      → is_not_found e ≡ true
      → view w p ≡ none
  pub read_file-frame : (p q : Text) (w : W) → view (files.read_file p w).1 q ≡ view w q
  pub mkdir_all-frame : (p q : Text) (w : W) → view (files.mkdir_all p w).1 q ≡ view w q
  pub create_temp-frame :
      (d q : Text) (w : W)
      → is_temporary q ≡ false
      → view (files.create_temp d pattern w).1 q ≡ view w q
  pub create_temp-new :
      (d t : Text) (w v : W)
      → files.create_temp d pattern w ≡ (ok t, v)
      → (is_temporary t ≡ true) × (view v t ≡ some [])
  pub write-frame : (t s q : Text) (w : W) → t ≢ q → view (files.write t s w).1 q ≡ view w q
  pub write-new :
      (t s : Text) (w v : W) (r : Unit {0})
      → view w t ≡ some []
      → files.write t s w ≡ (ok r, v)
      → view v t ≡ some s
  pub sync-frame : (t q : Text) (w : W) → view (files.sync t w).1 q ≡ view w q
  pub close-frame : (t q : Text) (w : W) → view (files.close t w).1 q ≡ view w q
  pub rename-frame :
      (t p q : Text) (w : W) → t ≢ q → p ≢ q → view (files.rename t p w).1 q ≡ view w q
  pub rename-ok :
      (t p : Text) (w v : W) (r : Unit {0})
      → t ≢ p
      → files.rename t p w ≡ (ok r, v)
      → view v p ≡ view w t
  pub rename-err :
      (t p q : Text) (w v : W) (e : Error) → files.rename t p w ≡ (err e, v) → view v q ≡ view w q
  pub remove-frame : (t q : Text) (w : W) → t ≢ q → view (files.remove t w).1 q ≡ view w q
  pub remove-ok :
      (t : Text) (w v : W) (r : Unit {0}) → files.remove t w ≡ (ok r, v) → view v t ≡ none
  pub remove_missing :
      (t : Text) (w v : W) (e : Error)
      → files.remove t w ≡ (err e, v)
      → is_not_found e ≡ true
      → view v t ≡ none
