-- ===== src/Cache/State.antt =====
-- internal/cache/cache.go: the state of the cache and its operations. An element of the LRU list
-- is its entry with the identity of its allocation; the map holds the same elements. A reading of
-- the clock is an argument.
use cifera.Base.{
  ℕ, zero, suc, ◌+◌, ◌-◌, ◌*◌, Bool, ◌&&◌, Option, none, some, List, [], ◌∷◌, ◌++◌, ltb, ◌==◌,
  if◌then◌else◌, length, ℤ, pos, negsuc, ltb_ℤ, sub_time, Text, codes, text_dec, is_empty, lookup,
  insert, delete,
}
use cifera.Header
use cifera.Header.{Header}
use cifera.Http.{Request, Response, TimeFormat}
use cifera.Cache.Policy.{Entry, extract_ttl_from_header, estimate_header_size, is_not_modified}

pub record Element : Type 0 where
  pub id : ℕ
  pub value : Entry

pub record WriteRequest : Type 0 where
  pub key : Text
  pub header : Header
  pub body : List ℕ
  pub status_code : ℕ

pub record Cache : Type 0 where
  pub lru : List Element
  pub items : List (Text × Element)
  pub cur_size : ℕ
  pub max_size : ℕ
  pub hits : ℕ
  pub misses : ℕ
  pub write_ch : List WriteRequest
  -- what list.PushFront allocates next
  pub next_id : ℕ

abbrev pub default_max_size : ℕ
default_max_size = 256 * 1024 * 1024

-- The capacity that a configured size stands for.
unfoldable pub effective_max_size : ℤ → ℕ
effective_max_size (pos zero) = default_max_size
effective_max_size (pos (suc n)) = suc n
effective_max_size (negsuc n) = default_max_size

unfoldable pub new : ℤ → Cache
unfolding effective_max_size
new max_size = record {
  lru = [];
  items = [];
  cur_size = 0;
  max_size = effective_max_size max_size;
  hits = 0;
  misses = 0;
  write_ch = [];
  next_id = 0;
}

-- list.Remove: the element is found by its identity.
unfoldable pub list_remove : ℕ → List Element → List Element
list_remove id [] = []
list_remove id (x ∷ l) = if x.id == id then l else x ∷ list_remove id l

-- list.Back
unfoldable pub back : List Element → Option Element
back [] = none
back (x ∷ []) = some x
back (x ∷ y ∷ l) = back (y ∷ l)

unfoldable pub remove_element : Cache → Element → Cache
remove_element c elem = record c {
  items = delete text_dec elem.value.key c.items;
  lru = list_remove elem.id c.lru;
  cur_size = c.cur_size - elem.value.size;
}

abbrev pub is_expired : ℕ → Entry → Bool
is_expired now e = ltb_ℤ (pos 0) e.ttl && ltb_ℤ e.ttl (sub_time now e.stored_at)

abbrev set_unless_empty : Header → Text → Text → Header
set_unless_empty h k v = if is_empty v then h else Header.set h k v

-- The answer 304, with the validators.
unfoldable pub not_modified_response : TimeFormat → Entry → Response
unfolding Header.set Header.get
not_modified_response tf e =
    let h0 = set_unless_empty [] (codes "ETag") e.etag in
    let h1 =
      if e.last_modified == 0
      then h0
      else Header.set h0 (codes "Last-Modified") (tf.format e.last_modified) in
    let h2 =
      set_unless_empty h1 (codes "Cache-Control") (Header.get e.header (codes "Cache-Control")) in
    record { status_code = 304; header = h2; body = []; content_length = pos 0 }

unfoldable pub cached_response : TimeFormat → Option Request → Entry → Response
unfolding is_not_modified not_modified_response
cached_response tf req e = if is_not_modified tf req e then not_modified_response tf e else record {
  status_code = e.status_code;
  header = e.header;
  body = e.body;
  content_length = pos 0;
}

unfoldable pub get : TimeFormat → ℕ → Cache → Text → Option Request → Cache × Option Response
get tf now c key req = elim (lookup text_dec key c.items) [
  | none ↦ (record c { misses = c.misses + 1 }, none)
  | some elem ↦
      if is_expired now elem.value
      then (let c' = remove_element c elem in (record c' { misses = c.misses + 1 }, none))
      else (
        record c { lru = elem ∷ list_remove elem.id c.lru; hits = c.hits + 1 },
        some (cached_response tf req elem.value),
      )
]

-- `for c.curSize+extra > limit && c.lru.Len() > 0`: the fuel is the length of the list.
unfoldable pub evict_loop : ℕ → ℕ → ℕ → Cache → Cache
evict_loop zero extra limit c = c
evict_loop (suc fuel) extra limit c =
    if ltb limit (c.cur_size + extra)
    then (elim (back c.lru) [
      | none ↦ c
      | some oldest ↦ evict_loop fuel extra limit (remove_element c oldest)
    ])
    else c

unfoldable pub evict : ℕ → ℕ → Cache → Cache
evict extra limit c = evict_loop (length c.lru) extra limit c

-- The lifetime that a non-negative result stands for; none for a response not to be stored.
unfoldable pub effective_ttl : ℤ → Option ℤ
effective_ttl (pos zero) = some (pos (5 * 60 * 1_000_000_000))
effective_ttl (pos (suc n)) = some (pos (suc n))
effective_ttl (negsuc n) = none

parse_or_zero : TimeFormat → Text → ℕ
parse_or_zero tf s = if is_empty s then 0 else (elim (tf.parse s) [ none ↦ 0 | some t ↦ t ])

unfoldable pub make_entry : TimeFormat → ℕ → WriteRequest → ℤ → Entry
unfolding estimate_header_size parse_or_zero Header.get
make_entry tf now w ttl = record {
  key = w.key;
  header = w.header;
  body = w.body;
  status_code = w.status_code;
  stored_at = now;
  ttl = ttl;
  size = length w.body + estimate_header_size w.header;
  etag = Header.get w.header (codes "ETag");
  last_modified = parse_or_zero tf (Header.get w.header (codes "Last-Modified"));
}

-- list.PushFront and the new map entry
unfoldable pub push_front : Cache → Entry → Cache
push_front c e =
    let elem : Element = record { id = c.next_id; value = e } in
    record c {
      lru = elem ∷ c.lru;
      items = insert text_dec e.key elem c.items;
      cur_size = c.cur_size + e.size;
      next_id = c.next_id + 1;
    }

unfoldable pub remove_key : Cache → Text → Cache
remove_key c key = elim (lookup text_dec key c.items) [
  | none ↦ c
  | some elem ↦ remove_element c elem
]

unfoldable pub store : Cache → Entry → Cache
store c e = let c1 = remove_key c e.key in let c2 = evict e.size c1.max_size c1 in push_front c2 e

set_timed : TimeFormat → ℕ → Cache → WriteRequest → Option ℤ → Cache
set_timed tf now c w none = c
set_timed tf now c w (some ttl) = store c (make_entry tf now w ttl)

unfoldable pub set_locked : TimeFormat → ℕ → Cache → WriteRequest → Cache
unfolding set_timed
set_locked tf now c w =
    if is_empty w.body
    then c
    else set_timed tf now c w (effective_ttl (extract_ttl_from_header tf now w.header))

unfoldable pub resize : Cache → ℤ → Cache
resize c (pos zero) = c
resize c (pos (suc n)) = evict 0 (suc n) (record c { max_size = suc n })
resize c (negsuc n) = c

unfoldable pub stats : Cache → ℕ × ℕ × ℕ × ℕ
stats c = (c.hits, c.misses, c.cur_size, length c.lru)

abbrev pub write_ch_capacity : ℕ
write_ch_capacity = 4096

-- A request is dropped when the channel is full.
unfoldable pub set_async : Cache → WriteRequest → Cache
set_async c w =
    if is_empty w.body
    then c
    else if ltb (length c.write_ch) write_ch_capacity
    then record c { write_ch = c.write_ch ++ w ∷ [] }
    else c

-- One round of the loop that receives from the channel.
unfoldable pub write_loop_step : TimeFormat → ℕ → Cache → Cache
write_loop_step tf now c = elim c.write_ch [
  | [] ↦ c
  | w ∷ ws ↦ set_locked tf now (record c { write_ch = ws }) w
]

drain : TimeFormat → ℕ → List WriteRequest → Cache → Cache
drain tf now [] c = c
drain tf now (w ∷ ws) c = drain tf now ws (set_locked tf now (record c { write_ch = ws }) w)

-- Close waits until the channel is empty.
unfoldable pub close : TimeFormat → ℕ → Cache → Cache
unfolding drain
close tf now c = drain tf now c.write_ch c
