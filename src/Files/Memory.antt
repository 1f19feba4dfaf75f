-- ===== src/Files/Memory.antt =====
-- A disk that keeps its files in a list and never runs full, for the examples.
use mathlib.Core.Option
use rust4eska.Prelude.{
  ℕ, ◌≡◌, ◌≢◌, ◌⊎◌, inl, inr, refl, sym, ap, Text, text_eq, nat_eq, Option, none, some, List, [],
  ◌∷◌, ◌++◌, Result, ok, err, Error, Bool, true, false, ◌==◌, if◌then◌else◌, length, list_beq,
  list_beq_iff, Eq, arith, eq_of_ok, eq_of_some,
}
use rust4eska.Files.{Place, Disk}

instance abbrev place_eq : Eq Place
place_eq = record { same = list_beq; same_iff = list_beq_iff }

abbrev pub Files : Type 0
Files = List (Place × Text)

unfoldable pub content : Place → Files → Option Text
content q [] = none
content q ((p, b) ∷ files) = if p == q then some b else content q files

unfoldable pub erase : Place → Files → Files
erase q [] = []
erase q ((p, b) ∷ files) = let rest = erase q files in if p == q then rest else (p, b) ∷ rest

pub content-erase :
    (q r : Place) (files : Files)
    → content r (erase q files) ≡ (if q == r then none else content r files)
unfolding content erase
content-erase q r [] = ground arith
content-erase q r ((p, b) ∷ files) =
    ground (arith, content-erase q r files, list_beq_iff p q, list_beq_iff q r, list_beq_iff p r)

abbrev pub place : Place → Text → Files → Files
place p b files = (p, b) ∷ erase p files

pub content-place :
    (p q : Place) (b : Text) (files : Files)
    → content q (place p b files) ≡ (if p == q then some b else content q files)
unfolding content
content-place p q b files = ground (arith, content-erase p q files)

pub content-place_ne :
    (p q : Place) (b : Text) (files : Files) → p ≢ q → content q (place p b files) ≡ content q files
content-place_ne p q b files h = ground (arith, content-place p q b files, list_beq_iff p q)

abbrev opened : Bool → Place → Option Text → Files → Result (Unit {0}) × Files
opened c p (some b) files = (ok tt, files)
opened true p none files = (ok tt, place p [] files)
opened false p none files = (err Error.external, files)

abbrev appended : Place → Text → Option Text → Files → Result (Unit {0}) × Files
appended p d (some b) files = (ok tt, place p (b ++ d) files)
appended p d none files = (err Error.external, files)

abbrev or_missing : {A : Type 0} → Option A → Result A
or_missing (some a) = ok a
or_missing none = err Error.external

abbrev is_there : Option Text → Bool
is_there none = false
is_there (some b) = true

abbrev moved : Place → Place → Option Text → Files → Result (Unit {0}) × Files
moved p q (some b) files = (ok tt, place q b (erase p files))
moved p q none files = (err Error.external, files)

-- an operation on what stands at a place, which it looks up first
pub opened_ne :
    (c : Bool) (p q : Place) (o : Option Text) (files : Files)
    → p ≢ q
    → content q (opened c p o files).1 ≡ content q files
opened_ne c p q (some b) files h = refl
opened_ne true p q none files h = content-place_ne p q [] files h
opened_ne false p q none files h = refl

pub appended_ne :
    (p q : Place) (d : Text) (o : Option Text) (files : Files)
    → p ≢ q
    → content q (appended p d o files).1 ≡ content q files
appended_ne p q d (some b) files h = content-place_ne p q (b ++ d) files h
appended_ne p q d none files h = refl

pub erased_ne : (p q : Place) (files : Files) → p ≢ q → content q (erase p files) ≡ content q files
erased_ne p q files h = ground (arith, content-erase p q files, list_beq_iff p q)

pub moved_ne :
    (p q r : Place) (o : Option Text) (files : Files)
    → p ≢ r
    → q ≢ r
    → content r (moved p q o files).1 ≡ content r files
moved_ne p q r (some b) files h k =
    ground (arith, content-place_ne q r b (erase p files) k, erased_ne p r files h)
moved_ne p q r none files h k = refl

abbrev pub at_opened :
    (c : Bool) (p : Place) (b : Text) (o : Option Text) (files : Files)
    → o ≡ some b
    → content p files ≡ some b
    → content p (opened c p o files).1 ≡ some b
at_opened c p b o files e h = rw e h

pub at_appended :
    (p : Place) (b d : Text) (o : Option Text) (files : Files)
    → o ≡ some b
    → content p (appended p d o files).1 ≡ some (b ++ d)
at_appended p b d o files e =
    rw e (ground (arith, content-place p p (b ++ d) files, list_beq_iff p p))

pub at_read : (b : Text) (o : Option Text) → or_missing o ≡ ok b → o ≡ some b
at_read b (some c) h = rw (eq_of_ok h) refl
at_read b none h = cc

pub at_len :
    (n : ℕ) (b : Text) (o : Option Text)
    → or_missing (Option.map (λ (c : Text). length c) o) ≡ ok n
    → o ≡ some b
    → n ≡ length b
at_len n b (some c) h e = rw (sym (eq_of_ok h)) (ap (λ (x : Text). length x) (eq_of_some e))
at_len n b none h e = cc

pub at_moved :
    (p q : Place) (o : Option Text) (files : Files)
    → content p files ≡ o
    → (content q (moved p q o files).1 ≡ content p files)
      ⊎ (content q (moved p q o files).1 ≡ content q files)
at_moved p q (some b) files e =
    inl (ground (arith, content-place q q b (erase p files), list_beq_iff q q))
at_moved p q none files e = inr refl

abbrev pub memory_disk : Disk
memory_disk = record {
  Fs = Files;
  file = content;
  create_dir_all = λ p fs. (ok tt, fs);
  write = λ p b fs. (ok tt, place p b fs);
  open_append = λ c p fs. opened c p (content p fs) fs;
  write_all = λ p d fs. appended p d (content p fs) fs;
  file_flush = λ p fs. (ok tt, fs);
  len = λ p fs. or_missing (Option.map (λ (b : Text). length b) (content p fs));
  read = λ p fs. or_missing (content p fs);
  try_exists = λ p fs. ok (is_there (content p fs));
  remove_file = λ p fs. (ok tt, erase p fs);
  rename = λ p q fs. moved p q (content p fs) fs;
  file-create_dir_all = λ p q fs. refl;
  file-write_ne = λ p q b fs h. content-place_ne p q b fs h;
  file-open_append_ne = λ c p q fs h. opened_ne c p q (content p fs) fs h;
  file-write_all_ne = λ p q b fs h. appended_ne p q b (content p fs) fs h;
  file-flush = λ p q fs. refl;
  file-remove_file_ne = λ p q fs h. erased_ne p q fs h;
  file-rename_ne = λ p q r fs h k. moved_ne p q r (content p fs) fs h k;
  file-open_append = λ c p b fs h e. at_opened c p b (content p fs) fs e e;
  file-write_all = λ p b d fs h e. at_appended p b d (content p fs) fs e;
  file-len = λ p n b fs h e. at_len n b (content p fs) h e;
  file-read = λ p b fs h. at_read b (content p fs) h;
  file-rename = λ p q fs h. at_moved p q (content p fs) fs refl;
}
