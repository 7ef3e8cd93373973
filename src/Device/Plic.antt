-- ===== src/Device/Plic.antt =====
-- difftest/src/rv_plic.hpp: the interrupt controller of `nr_source` sources and `nr_context` contexts.
pub mod Claim
pub mod Complete
use hdu_cpu_lab.Common.{
  ℕ, zero, suc, ◌+◌, ◌-◌, ◌*◌, ◌/◌, ◌%◌, ◌^◌, Bool, not, ◌&&◌, ◌||◌, List, [], length, take, get_or,
  set, replicate, ltb, leb, ◌==◌, if◌then◌else◌,
}
use hdu_cpu_lab.Common.Words.{u64, set_field}
use hdu_cpu_lab.Common.Bytes.{to_bytes, from_bytes}
use hdu_cpu_lab.Device.{Outcome, done, refused, fault}

-- One bit for each source in `pending`, in each row of `enable` and in `claimed`, 32 to a word.
pub record Plic : Type 0 where
  pub nr_source : ℕ
  pub nr_context : ℕ
  pub priority : List ℕ
  pub pending : List ℕ
  pub enable : List (List ℕ)
  pub threshold : List ℕ
  pub claim : List ℕ
  pub claimed : List ℕ

unfoldable pub rv_plic : ℕ → ℕ → Plic
rv_plic nr_source nr_context =
    let row : List ℕ = replicate ((nr_source + 1 + 31) / 32) 0 in
    record {
      nr_source = nr_source;
      nr_context = nr_context;
      priority = replicate (nr_source + 1) 0;
      pending = row;
      enable = replicate nr_context row;
      threshold = replicate nr_context 0;
      claim = replicate nr_context 0;
      claimed = row;
    }

-- Setting or clearing the bit of one source.
abbrev pub set_source : List ℕ → ℕ → ℕ → List ℕ
set_source xs i v = set xs (i / 32) (set_field (get_or xs (i / 32) 0) (i % 32) 1 v)

unfoldable pub update_ext : Plic → ℕ → Bool → Outcome Plic
update_ext p source_id fired =
    if ltb (source_id / 32) (length p.pending)
    then done (record p {
      pending =
          let cleared = set_source p.pending source_id 0 in
          if fired then set_source cleared source_id 1 else cleared;
    })
    else fault

-- `xs[i / 32] >> (i % 32)` as a condition: it holds when any bit from that of source `i` on is set.
abbrev pub shifted : List ℕ → ℕ → Bool
shifted xs i = ltb 0 (get_or xs (i / 32) 0 / 2 ^ (i % 32))

abbrev pub eligible : Plic → ℕ → ℕ → Bool
eligible p context_id i =
    leb (get_or p.threshold context_id 0) (get_or p.priority i 0)
    && shifted p.pending i
    && shifted (get_or p.enable context_id []) i
    && not (shifted p.claimed i)

-- The loop of `get_int` from source `i`, with `left` sources to go; it returns the source found.
unfoldable pub best_source : Plic → ℕ → ℕ → ℕ → ℕ → ℕ → ℕ
best_source p context_id zero i max_priority max_priority_int = max_priority_int
best_source p context_id (suc left) i max_priority max_priority_int =
    let better = eligible p context_id i && ltb max_priority (get_or p.priority i 0) in
    best_source p context_id left (i + 1) (if better then get_or p.priority i 0 else max_priority)
      (if better then i else max_priority_int)

unfoldable pub get_int : Plic → ℕ → Outcome (Bool × Plic)
unfolding best_source
get_int p context_id =
    if ltb context_id p.nr_context
    then (let source = best_source p context_id p.nr_source 1 0 0 in
        done (ltb 0 source, record p { claim = set p.claim context_id source }))
    else fault

-- Array reads and writes of 32-bit words, with the fault of an index out of range. A read stores four
-- bytes whatever the size: a shorter buffer is overrun, and of a longer one the rest stays as it was,
-- which a list of the bytes stored cannot say, so that `fault` stands for every other size. A write
-- takes the first four bytes of its buffer, which may be longer.
abbrev load : Plic → List ℕ → ℕ → ℕ → Outcome (List ℕ × Plic)
load p xs i size =
    if ltb i (length xs) && size == 4 then done (to_bytes 4 (get_or xs i 0), p) else fault

abbrev store : List ℕ → ℕ → List ℕ → (List ℕ → Plic) → Outcome Plic
store xs i bytes k =
    if ltb i (length xs) && leb 4 (length bytes)
    then done (k (set xs i (from_bytes (take 4 bytes))))
    else fault

-- The arguments of `4 * nr_source` comparisons are converted to uint64_t.
abbrev off_priority : Plic → ℕ → ℕ → Bool
off_priority p start_addr size =
    start_addr == 0
    || ltb (4 * p.nr_source) start_addr
    || ltb (4 * (p.nr_source + 1)) (u64 (start_addr + size))

-- The registers of one context: its enable bits, and its threshold and claim.
abbrev enable_at : ℕ → ℕ
enable_at start_addr = u64 (start_addr + 2 ^ 64 - 0x2000) / 0x80

abbrev pub context_at : ℕ → ℕ
context_at start_addr = u64 (start_addr + 2 ^ 64 - 0x200000) / 0x1000

read_enable : Plic → ℕ → ℕ → Outcome (List ℕ × Plic)
read_enable p start_addr size =
    let context_id = enable_at start_addr in
    let at = start_addr % 0x80 in
    if leb p.nr_context context_id || ltb p.nr_source at
    then refused
    else load p (get_or p.enable context_id []) at size

read_context : Plic → ℕ → ℕ → Outcome (List ℕ × Plic)
read_context p start_addr size =
    let context_id = context_at start_addr in
    let offset = start_addr % 0x1000 in
    let id = get_or p.claim context_id 0 in
    if ltb p.nr_context context_id
    then refused
    else if offset == 0
    then load p p.threshold context_id size
    else if offset == 4
    then if ltb (id / 32) (length p.claimed)
      then load (record p { claimed = set_source p.claimed id 1 }) p.claim context_id size
      else fault
    else refused

unfoldable pub do_read : Plic → ℕ → ℕ → Outcome (List ℕ × Plic)
unfolding read_enable read_context
do_read p start_addr size =
    let end_addr = u64 (start_addr + size) in
    let idx = u64 (start_addr + 2 ^ 64 - 0x1000) / 4 in
    if leb end_addr 0x1000
    then if off_priority p start_addr size then refused else load p p.priority (start_addr / 4) size
    else if leb end_addr 0x1080
    then if ltb p.nr_source idx then refused else load p p.pending idx size
    else if leb end_addr 0x2000
    then refused
    else if leb end_addr 0x200000
    then read_enable p start_addr size
    else read_context p start_addr size

write_enable : Plic → ℕ → List ℕ → Outcome Plic
write_enable p start_addr bytes =
    let context_id = enable_at start_addr in
    let at = start_addr % 0x80 in
    if leb p.nr_context context_id || ltb p.nr_source at
    then refused
    else store (get_or p.enable context_id []) at bytes
        (λ xs. record p { enable = set p.enable context_id xs })

write_context : Plic → ℕ → List ℕ → Outcome Plic
write_context p start_addr bytes =
    let context_id = context_at start_addr in
    let offset = start_addr % 0x1000 in
    let id = from_bytes (take 4 bytes) in
    if ltb p.nr_context context_id
    then refused
    else if offset == 0
    then store p.threshold context_id bytes (λ xs. record p { threshold = xs })
    else if offset == 4
    then if ltb (id / 32) (length p.claimed) && leb 4 (length bytes)
      then done (record p { claimed = set_source p.claimed id 0 })
      else fault
    else refused

unfoldable pub do_write : Plic → ℕ → List ℕ → Outcome Plic
unfolding write_enable write_context
do_write p start_addr bytes =
    let end_addr = u64 (start_addr + length bytes) in
    if leb end_addr 0x1000
    then if off_priority p start_addr (length bytes)
      then refused
      else store p.priority (start_addr / 4) bytes (λ xs. record p { priority = xs })
    else if leb end_addr 0x1080
    then done p
    else if leb end_addr 0x2000
    then refused
    else if leb end_addr 0x200000
    then write_enable p start_addr bytes
    else write_context p start_addr bytes
