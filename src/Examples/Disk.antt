-- ===== src/Examples/Disk.antt =====
-- A file system that holds files by name and makes one temporary file at a time.
use kg.Base.{
  Bool, true, List, [], ◌∷◌, Option, none, some, Result, ok, err, Text, codes, ◌≡◌, ◌≢◌, refl,
  arith, subst, ◌==◌,
}
use kg.Base.Paths.{base_of}
use kg.Api.Maps.{Labels, put, remove, lookup, lookup-put, lookup-remove}
use kg.Platform.{Error}
use kg.Platform.Files.{Files, IsFileSystem}
use kg.Registry.{pattern}
use kg.Examples.World.{missing}

abbrev pub temporary : Text
temporary = codes "/kg/clusters/.record-1"

abbrev pub is_temporary : Text → Bool
is_temporary q = temporary == q

abbrev content : Option Text → Result Error Text
content none = err missing
content (some t) = ok t

abbrev move : Text → Text → Option Text → Labels → Result Error (Unit {0}) × Labels
move t p none w = (err missing, w)
move t p (some c) w = (ok tt, put p c (remove t w))

abbrev unlink : Text → Option Text → Labels → Result Error (Unit {0}) × Labels
unlink t none w = (err missing, w)
unlink t (some c) w = (ok tt, remove t w)

abbrev names : Labels → List Text
names [] = []
names ((p, c) ∷ w) = base_of p ∷ names w

abbrev pub disk : Files Labels
disk = record {
  read_file = λ p w. (content (lookup p w), w);
  read_dir = λ d w. (ok (names w), w);
  mkdir_all = λ d w. (ok tt, w);
  create_temp = λ d s w. (ok temporary, put temporary [] w);
  rename = λ t p w. move t p (lookup t w) w;
  write = λ t s w. (ok tt, put t s w);
  sync = λ t w. (ok tt, w);
  close = λ t w. (ok tt, w);
  remove = λ t w. unlink t (lookup t w) w;
  stat = λ p w. (ok tt, w);
  write_file = λ p s w. (ok tt, put p s w);
  abs = λ p w. (ok p, w);
  now = λ w. 7;
}

abbrev pub view : Labels → Text → Option Text
view w q = lookup q w

content-ok : (o : Option Text) (t : Text) → content o ≡ ok t → o ≡ some t
content-ok none t h = cc
content-ok (some s) t h = cc

content-err : (o : Option Text) (e : Error) → content o ≡ err e → o ≡ none
content-err none e h = refl
content-err (some s) e h = cc

move-frame :
    (t p q : Text) (o : Option Text) (w : Labels)
    → t ≢ q
    → p ≢ q
    → lookup q (move t p o w).1 ≡ lookup q w
move-frame t p q none w a b = refl
move-frame t p q (some c) w a b = ground (arith, lookup-put p q c (remove t w), lookup-remove t q w)

move-ok :
    (t p : Text) (o : Option Text) (w v : Labels) (r : Unit {0})
    → move t p o w ≡ (ok r, v)
    → lookup p v ≡ o
move-ok t p none w v r h = cc
move-ok t p (some c) w v r h =
    let same : put p c (remove t w) ≡ v = cc in ground (arith, lookup-put p p c (remove t w))

move-err :
    (t p q : Text) (o : Option Text) (w v : Labels) (e : Error)
    → move t p o w ≡ (err e, v)
    → lookup q v ≡ lookup q w
move-err t p q none w v e h = let same : w ≡ v = cc in ground arith
move-err t p q (some c) w v e h = cc

unlink-frame :
    (t q : Text) (o : Option Text) (w : Labels) → t ≢ q → lookup q (unlink t o w).1 ≡ lookup q w
unlink-frame t q none w a = refl
unlink-frame t q (some c) w a = ground (arith, lookup-remove t q w)

unlink-ok :
    (t : Text) (o : Option Text) (w v : Labels) (r : Unit {0})
    → unlink t o w ≡ (ok r, v)
    → lookup t v ≡ none
unlink-ok t none w v r h = cc
unlink-ok t (some c) w v r h = let same : remove t w ≡ v = cc in ground (arith, lookup-remove t t w)

unlink-err :
    (t : Text) (o : Option Text) (w v : Labels) (e : Error)
    → unlink t o w ≡ (err e, v)
    → (o ≡ none) × (w ≡ v)
unlink-err t none w v e h = (refl, cc)
unlink-err t (some c) w v e h = cc

created :
    (t : Text) (w v : Labels)
    → temporary ≡ t
    → put temporary [] w ≡ v
    → (is_temporary t ≡ true) × (lookup t v ≡ some [])
created t w v named made = (
  ground arith,
  subst (λ u. lookup t u ≡ some []) made (ground (arith, lookup-put temporary t [] w)),
)

pub disk-IsFileSystem : IsFileSystem disk view is_temporary pattern
disk-IsFileSystem = record {
  read_file-view = λ p t w v h. content-ok (lookup p w) t cc;
  read_file_missing = λ p t w v e h _. content-err (lookup p w) e cc;
  read_file-frame = λ p q w. refl;
  mkdir_all-frame = λ p q w. refl;
  create_temp-frame = λ d q w h. ground (arith, lookup-put temporary q [] w);
  create_temp-new = λ d t w v h.
      let named : temporary ≡ t = cc in
      let made : put temporary [] w ≡ v = cc in created t w v named made;
  write-frame = λ t s q w h. ground (arith, lookup-put t q s w);
  write-new = λ t s w v r _ h. let same : put t s w ≡ v = cc in ground (arith, lookup-put t t s w);
  sync-frame = λ t q w. refl;
  close-frame = λ t q w. refl;
  rename-frame = λ t p q w a b. move-frame t p q (lookup t w) w a b;
  rename-ok = λ t p w v r _ h. move-ok t p (lookup t w) w v r h;
  rename-err = λ t p q w v e h. move-err t p q (lookup t w) w v e h;
  remove-frame = λ t q w a. unlink-frame t q (lookup t w) w a;
  remove-ok = λ t w v r h. unlink-ok t (lookup t w) w v r h;
  remove_missing = λ t w v e h _.
      let (gone, same) = unlink-err t (lookup t w) w v e h in
      subst (λ u. lookup t u ≡ none) same gone;
}
