-- ===== src/Files.antt =====
-- What the image registry takes from the file system (std::path, tokio::fs), as an interface with the
-- documented behaviour that the theorems rely on. There are no symbolic links below the places that
-- are used. `Memory` meets it.
pub mod Memory
pub mod Names
use rust4eska.Prelude.{
  ℕ, ◌≡◌, ◌≢◌, ◌⊎◌, Text, text, text_eq, nat_eq, Option, none, some, List, [], ◌∷◌, ◌++◌, Result,
  ok, err, Exec, Bool, true, false, ◌||◌, ◌==◌, if◌then◌else◌, nat_beq, is_empty, length,
}

-- A place that the system reaches, as the names on the way from it up to the root.
abbrev pub Place : Type 0
Place = List Text

abbrev pub first_name : Text → Text × List Text
first_name [] = ([], [])
first_name (c ∷ s) =
    let (name, names) = first_name s in
    if nat_beq c b'/' then ([], name ∷ names) else (c ∷ name, names)

-- `Path::components`, where an empty name and `.` stand for nothing
abbrev pub names : Text → List Text
names s = let (name, rest) = first_name s in name ∷ rest

abbrev pub parent : Place → Place
parent [] = []
parent (name ∷ place) = place

abbrev pub enter : Place → Text → Place
enter place name =
    if is_empty name || name == text "."
    then place
    else if name == text ".."
    then parent place
    else name ∷ place

abbrev pub walk : Place → List Text → Place
walk place [] = place
walk place (name ∷ names) = walk (enter place name) names

abbrev pub is_absolute : Text → Bool
is_absolute [] = false
is_absolute (c ∷ s) = nat_beq c b'/'

-- `PathBuf::join` and then the system's way to the place: an absolute path replaces the whole.
unfoldable pub join : Place → Text → Place
join place path = walk (if is_absolute path then [] else place) (names path)

pub record Disk : Type 1 where
  pub Fs : Type 0
  -- the bytes of the file at a place
  pub file : Place → Fs → Option Text
  pub create_dir_all : Place → Exec Fs (Unit {0})
  -- `fs::write(place, bytes)`
  pub write : Place → Text → Exec Fs (Unit {0})
  -- `fs::OpenOptions::new().create(create).append(true).open(place)`
  pub open_append : Bool → Place → Exec Fs (Unit {0})
  -- `write_all` on a file that was opened so
  pub write_all : Place → Text → Exec Fs (Unit {0})
  pub file_flush : Place → Exec Fs (Unit {0})
  pub len : Place → Fs → Result ℕ
  pub read : Place → Fs → Result Text
  pub try_exists : Place → Fs → Result Bool
  pub remove_file : Place → Exec Fs (Unit {0})
  pub rename : Place → Place → Exec Fs (Unit {0})
  -- An operation at a place leaves the files at other places alone, also when it fails.
  pub file-create_dir_all : (p q : Place) (fs : Fs) → file q (create_dir_all p fs).1 ≡ file q fs
  pub file-write_ne :
      (p q : Place) (b : Text) (fs : Fs) → p ≢ q → file q (write p b fs).1 ≡ file q fs
  pub file-open_append_ne :
      (c : Bool) (p q : Place) (fs : Fs) → p ≢ q → file q (open_append c p fs).1 ≡ file q fs
  pub file-write_all_ne :
      (p q : Place) (b : Text) (fs : Fs) → p ≢ q → file q (write_all p b fs).1 ≡ file q fs
  pub file-flush : (p q : Place) (fs : Fs) → file q (file_flush p fs).1 ≡ file q fs
  pub file-remove_file_ne :
      (p q : Place) (fs : Fs) → p ≢ q → file q (remove_file p fs).1 ≡ file q fs
  pub file-rename_ne :
      (p q r : Place) (fs : Fs) → p ≢ r → q ≢ r → file r (rename p q fs).1 ≡ file r fs
  -- What is opened to append keeps its bytes, and the bytes that are written come behind them.
  pub file-open_append :
      (c : Bool) (p : Place) (b : Text) (fs : Fs)
      → (open_append c p fs).0 ≡ ok tt
      → file p fs ≡ some b
      → file p (open_append c p fs).1 ≡ some b
  pub file-write_all :
      (p : Place) (b d : Text) (fs : Fs)
      → (write_all p d fs).0 ≡ ok tt
      → file p fs ≡ some b
      → file p (write_all p d fs).1 ≡ some (b ++ d)
  pub file-len :
      (p : Place) (n : ℕ) (b : Text) (fs : Fs) → len p fs ≡ ok n → file p fs ≡ some b → n ≡ length b
  pub file-read : (p : Place) (b : Text) (fs : Fs) → read p fs ≡ ok b → file p fs ≡ some b
  -- Renaming moves the file, over the one that may stand there, or fails and leaves that as it was.
  pub file-rename :
      (p q : Place) (fs : Fs)
      → p ≢ q
      → (file q (rename p q fs).1 ≡ file p fs) ⊎ (file q (rename p q fs).1 ≡ file q fs)
