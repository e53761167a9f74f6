-- ===== src/Control/Heap/FreeLists.antt =====
-- The twelve free lists of src/Processors/ControlStorage/GuestHeap.cpp: `head`, `dequeue`, `insert`,
-- `enqueue` and the size classes. Offsets are from the start of the pool. `classes` has a set at
-- every index, where `class_` has twelve.
use sim.Base.{
  ℕ, zero, suc, ◌+◌, ◌-◌, ◌*◌, ◌/◌, ◌^◌, bit_and, bit_xor, Bool, true, false, not, ◌&&◌, Option,
  none, some, List, [], ◌∷◌, ltb, leb, ◌==◌, if◌then◌else◌, length,
}
use sim.Control.Heap.Sets.{Extent, insert_key, erase_key, find, put, erase}

pub record FreeLists : Type 0 where
  pub classes : ℕ → List ℕ
  pub elements : List Extent

unfoldable pub empty_lists : FreeLists
empty_lists = record { classes = λ k. []; elements = [] }

-- The loop of `classIndex`, with so many classes left.
unfoldable pub class_from : (left c bytes : ℕ) → ℕ
class_from zero c bytes = 0
class_from (suc left) c bytes =
    let later = class_from left (c * 2) bytes in if ltb c bytes then suc later else 0

unfoldable pub class_index : ℕ → ℕ
unfolding class_from
class_index bytes = class_from 12 16 bytes

-- `kGranularity << k`.
abbrev pub class_bytes : ℕ → ℕ
class_bytes k = 16 * 2 ^ k

unfoldable pub rounded_size : ℕ → ℕ
unfolding class_index
rounded_size bytes =
    let c = class_bytes (class_index bytes) in
    if bytes == 0 then 0 else if leb (bytes + 256) c then (bytes + 255) / 256 * 256 else c

unfoldable pub is_power_of_two : ℕ → Bool
is_power_of_two v = ltb 0 v && bit_and v (v - 1) == 0

abbrev pub head : List ℕ → Option ℕ
head [] = none
head (k ∷ ks) = some k

unfoldable pub edit_class : (List ℕ → List ℕ) → ℕ → (ℕ → List ℕ) → ℕ → List ℕ
edit_class edit k classes j = if j == k then edit (classes j) else classes j

unfoldable pub dequeue : ℕ → ℕ → FreeLists → FreeLists
dequeue k off f = record {
  classes = edit_class (erase_key off) k f.classes;
  elements = erase off f.elements;
}

unfoldable pub insert : ℕ → ℕ → FreeLists → FreeLists
insert off size f = record {
  classes = edit_class (insert_key off) (class_index size) f.classes;
  elements = put off size f.elements;
}

-- The length of an element that may not be there.
abbrev pub found_size : Option ℕ → ℕ
found_size none = 0
found_size (some n) = n

abbrev pub is_found : Option ℕ → Bool
is_found none = false
is_found (some n) = true

abbrev pub has_size : ℕ → Option ℕ → Bool
has_size size none = false
has_size size (some n) = n == size

-- The condition of the first loop of `enqueue`.
unfoldable pub absorbs : ℕ → ℕ → FreeLists → Bool
absorbs off size f = not (is_power_of_two size) && is_found (find (off + size) f.elements)

-- The length after the first loop, for at most so many elements.
unfoldable pub absorb : ℕ → ℕ → ℕ → FreeLists → ℕ × FreeLists
absorb zero off size f = (size, f)
absorb (suc left) off size f =
    let above = found_size (find (off + size) f.elements) in
    let later = absorb left off (size + above) (dequeue (class_index above) (off + size) f) in
    if absorbs off size f then later else (size, f)

unfoldable pub chunk_of : ℕ → ℕ
chunk_of size =
    let chunk = class_bytes (class_index (size / 2 + 1)) in if ltb 32768 chunk then 32768 else chunk

-- A descending run of powers of two.
unfoldable pub decompose : ℕ → ℕ → ℕ → FreeLists → FreeLists
decompose zero off size f = f
decompose (suc left) off size f =
    let chunk = chunk_of size in
    let later = decompose left (off + chunk) (size - chunk) (insert off chunk f) in
    if leb 16 size then later else f

-- Whether the buddy loop goes on; `bound` is the committed length of the pool.
unfoldable pub has_buddy : ℕ → ℕ → ℕ → FreeLists → Bool
has_buddy bound off size f =
    let buddy = bit_xor off size in
    ltb size 32768 && (ltb 0 buddy && (ltb buddy bound && has_size size (find buddy f.elements)))

pub record Block : Type 0 where
  pub off : ℕ
  pub size : ℕ
  pub lists : FreeLists

unfoldable pub join_buddies : ℕ → ℕ → ℕ → ℕ → FreeLists → Block
join_buddies zero bound off size f = record { off = off; size = size; lists = f }
join_buddies (suc left) bound off size f =
    let buddy = bit_xor off size in
    let lower = if ltb buddy off then buddy else off in
    let later = join_buddies left bound lower (size * 2) (dequeue (class_index size) buddy f) in
    if has_buddy bound off size f then later else record { off = off; size = size; lists = f }

unfoldable pub file_block : Block → FreeLists
file_block b = insert b.off b.size b.lists

-- The two ways to file what the first loop has left.
unfoldable pub file : ℕ → ℕ → ℕ × FreeLists → FreeLists
file bound off (size, f) =
    if is_power_of_two size
    then file_block (join_buddies 12 bound off size f)
    else decompose size off size f

unfoldable pub enqueue : ℕ → ℕ → ℕ → FreeLists → FreeLists
enqueue bound off size f = file bound off (absorb (length f.elements) off size f)
