-- ===== src/Control/Translation.antt =====
-- `NuPttPool` of src/Processors/ControlStorage/NuPtt.{h,cpp}: the files of address translation
-- registers, one for each request block. A file is named by its handle, and `by_handle` is the search
-- of the files for it. Numbers that the code expects not to be negative are natural.
pub mod Files
pub mod Owners
mod Tests
use sim.Base.{
  ℕ, zero, suc, ◌+◌, ◌-◌, ◌*◌, ◌%◌, ◌^◌, bit_and, Bool, true, false, not, ◌&&◌, ◌||◌, Option, none,
  some, List, [], ◌∷◌, ◌++◌, ltb, leb, ◌==◌, if◌then◌else◌, length, replicate, take, drop, get_or,
}

-- `NuPtt`.
pub record TranslationFile : Type 0 where
  pub handle : ℕ
  pub owner : ℕ
  pub atr : List ℕ

-- The head of the free list is its last handle, here the first.
pub record TranslationPool : Type 0 where
  pub files : List TranslationFile
  pub free_list : List ℕ

abbrev pub empty_pool : TranslationPool
empty_pool = record { files = []; free_list = [] }

abbrev pub atr_count : ℕ
atr_count = 32

-- The bytes of a file, by which the handles are apart.
abbrev pub file_bytes : ℕ
file_bytes = 312

unfoldable pub by_handle : ℕ → List TranslationFile → Option TranslationFile
by_handle handle [] = none
by_handle handle (p ∷ ps) =
    let later = by_handle handle ps in if p.handle == handle then some p else later

unfoldable pub edit_file :
    (TranslationFile → TranslationFile) → ℕ → List TranslationFile → List TranslationFile
edit_file edit handle [] = []
edit_file edit handle (p ∷ ps) =
    let rest = edit_file edit handle ps in if p.handle == handle then edit p ∷ ps else p ∷ rest

unfoldable pub own : ℕ → TranslationFile → TranslationFile
own rb p = record p { owner = rb }

unfoldable pub renew : ℕ → TranslationFile → TranslationFile
renew rb p = record p { owner = rb; atr = replicate atr_count 0 }

-- A file of the free list is used again; without one, a new file is made.
unfoldable pub allocate_from : ℕ → List TranslationFile → List ℕ → ℕ × TranslationPool
allocate_from rb files [] =
    let handle = length files * file_bytes in
    let made : TranslationFile = record {
      handle = handle;
      owner = rb;
      atr = replicate atr_count 0;
    } in
    (handle, record { files = files ++ made ∷ []; free_list = [] })
allocate_from rb files (head ∷ rest) =
    (head, record { files = edit_file (renew rb) head files; free_list = rest })

-- The handle of the block's file.
unfoldable pub allocate : ℕ → TranslationPool → ℕ × TranslationPool
allocate rb pool = allocate_from rb pool.files pool.free_list

abbrev pub if_owner : ℕ → Option TranslationFile → Option TranslationFile
if_owner rb none = none
if_owner rb (some p) = if p.owner == rb then some p else none

unfoldable pub owned : (handle rb : ℕ) → TranslationPool → Option TranslationFile
owned handle rb pool = if_owner rb (by_handle handle pool.files)

unfoldable pub free_owned : ℕ → Option TranslationFile → TranslationPool → Bool × TranslationPool
free_owned handle none pool = (false, pool)
free_owned handle (some p) pool = (
  true,
  record { files = edit_file (own 0) handle pool.files; free_list = handle ∷ pool.free_list },
)

unfoldable pub free : (handle rb : ℕ) → TranslationPool → Bool × TranslationPool
free handle rb pool = free_owned handle (owned handle rb pool) pool

-- A page frame from `old_frame` to the limit, which wraps at 16 bits.
unfoldable pub rebase : (old_frame new_frame pages : ℕ) → List ℕ → List ℕ
rebase old_frame new_frame pages [] = []
rebase old_frame new_frame pages (a ∷ rest) =
    let limit = (old_frame + pages) % 2 ^ 16 in
    let moved =
      if bit_and a 0xe000 == 0 && (leb old_frame a && ltb a limit)
      then (new_frame + (a - old_frame)) % 2 ^ 16
      else a in
    moved ∷ rebase old_frame new_frame pages rest

unfoldable pub rebase_files :
    (old_frame new_frame pages : ℕ) → List TranslationFile → List TranslationFile
rebase_files old_frame new_frame pages [] = []
rebase_files old_frame new_frame pages (p ∷ ps) =
    record p { atr = rebase old_frame new_frame pages p.atr }
    ∷ rebase_files old_frame new_frame pages ps

unfoldable pub rebase_frames : (old_frame new_frame pages : ℕ) → TranslationPool → TranslationPool
rebase_frames old_frame new_frame pages pool = record pool {
  files = rebase_files old_frame new_frame pages pool.files;
}

unfoldable pub capture_files : List TranslationFile → List ℕ
capture_files [] = []
capture_files (p ∷ ps) = p.owner ∷ p.atr ++ capture_files ps

unfoldable pub capture_checkpoint : TranslationPool → List ℕ
capture_checkpoint pool =
    length pool.files ∷ capture_files pool.files ++ length pool.free_list ∷ pool.free_list

abbrev pub halves : List ℕ → List ℕ
halves [] = []
halves (v ∷ vs) = v % 2 ^ 16 ∷ halves vs

-- So many files, from the number `i` on.
unfoldable pub restore_files : (count i : ℕ) → List ℕ → List TranslationFile
restore_files zero i v = []
restore_files (suc count) i [] = []
restore_files (suc count) i (owner ∷ v) =
    record { handle = i * file_bytes; owner = owner; atr = halves (take atr_count v) }
    ∷ restore_files count (suc i) (drop atr_count v)

-- A handle on the free list names a file without an owner.
unfoldable pub are_free : List TranslationFile → List ℕ → Bool
are_free files [] = true
are_free files (handle ∷ handles) = is_unowned (by_handle handle files) && are_free files handles
  where
    is_unowned : Option TranslationFile → Bool
    is_unowned none = false
    is_unowned (some p) = p.owner == 0

unfoldable pub restore_free : List TranslationFile → List ℕ → Bool × TranslationPool
restore_free files [] = (false, empty_pool)
restore_free files (count ∷ handles) =
    if not (length handles == count)
    then (false, empty_pool)
    else if not (are_free files handles)
    then (false, record { files = []; free_list = [] })
    else (true, record { files = files; free_list = handles })

unfoldable pub restore_checkpoint : List ℕ → Bool × TranslationPool
restore_checkpoint [] = (false, empty_pool)
restore_checkpoint (count ∷ v) =
    if ltb 65536 count || leb (suc (length v)) (suc (count * 33))
    then (false, empty_pool)
    else restore_free (restore_files count 0 v) (drop (count * 33) v)
