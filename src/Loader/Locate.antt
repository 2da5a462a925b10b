-- ===== src/Loader/Locate.antt =====
-- When the program is found, and what is loaded.
use ckb_js.Prelude.{
  ℕ, ◌<◌, ◌≤◌, ◌≡◌, ◌↔◌, ◌∙◌, refl, sym, ap, ap₂, true, false, Option, none, some, List, ◌∷◌, ◌++◌,
  length, take, drop, arith, take_all, length-take, length-drop,
}
use ckb_js.Prelude.Int.{pos}
use ckb_js.Syscall.{Reply, Request, LoadData}
use ckb_js.Syscall.Partial.{by_index, IsPartialLoad}
use ckb_js.Loader.Layout.{args-layout, layout_read}
use ckb_js.Loader.{
  Chain, Dep, ok, CodeInfo, code_hash, hash_type, load_cell_code_info, load_cell_code, script_size,
}

-- The script that the machine gives, and its arguments.
abbrev pub script : Chain → List ℕ
script c = take (c.load_script script_size).len (c.load_script script_size).bytes

abbrev pub args : Chain → List ℕ
args c = c.script_args (script c)

abbrev pub dep : Chain → Dep
dep c = c.look_for_dep_with_hash2 (code_hash (args c)) (hash_type (args c))

abbrev pub size_query : Chain → Reply
size_query c = c.load_cell_data false 0 0 (dep c).index c.source_cell_dep

-- The checks that `load_cell_code_info` makes, in their order.
record IsLocated (c : Chain) (info : CodeInfo) : Type 0 where
  script_loaded : (c.load_script script_size).err ≡ pos 0
  script_fits : (c.load_script script_size).len ≤ script_size
  script_valid : c.verify (script c) ≡ true
  args_long : 35 ≤ length (args c)
  dep_found : (dep c).err ≡ pos 0
  size_known : (size_query c).err ≡ pos 0
  index : info.index ≡ (dep c).index
  size : info.buf_size ≡ (size_query c).len
  not_empty : 0 < info.buf_size

load_cell_code_info-IsLocated :
    (c : Chain) (info : CodeInfo) → (load_cell_code_info c ≡ ok info) ↔ IsLocated c info
unfolding load_cell_code_info
load_cell_code_info-IsLocated c info = ground arith

abbrev Items : Type 0
Items = (index source field : ℕ) → Option (List ℕ)

-- The cell that a script names: its arguments are two bytes, a code hash of 32 bytes, a byte for
-- the kind of hash, and others; the dependency with this hash of this kind is at the index of
-- `info`; and the data of that cell are `bytes`, of the size of `info`.
pub record IsNamed (c : Chain) (item : Items) (info : CodeInfo) : Type 0 where
  pub lead : List ℕ
  pub hash : List ℕ
  pub kind : ℕ
  pub rest : List ℕ
  pub bytes : List ℕ
  pub script_loaded : (c.load_script script_size).err ≡ pos 0
  pub script_fits : (c.load_script script_size).len ≤ script_size
  pub script_valid : c.verify (script c) ≡ true
  pub layout : c.script_args (script c) ≡ lead ++ (hash ++ (kind ∷ rest))
  pub two_bytes : length lead ≡ 2
  pub hash_bytes : length hash ≡ 32
  pub dep_found : (c.look_for_dep_with_hash2 hash kind).err ≡ pos 0
  pub index : info.index ≡ (c.look_for_dep_with_hash2 hash kind).index
  pub content : item info.index c.source_cell_dep 0 ≡ some bytes
  pub size : info.buf_size ≡ length bytes
  pub not_empty : 0 < length bytes

module _ (c : Chain) {item : Items} (p : IsPartialLoad (by_index c.load_cell_data) item) where
  -- The request for the size of a cell's data.
  abbrev query : (index : ℕ) → Request
  query i = record {
    has_buffer = false;
    len = 0;
    args = record { length = 0; index = i; source = c.source_cell_dep; offset = 0; field = 0 };
  }

  located-IsNamed : (info : CodeInfo) → IsLocated c info → IsNamed c item info
  located-IsNamed info l = by_item (item info.index c.source_cell_dep 0) refl
    where
      by_item :
          (o : Option (List ℕ)) → item info.index c.source_cell_dep 0 ≡ o → IsNamed c item info
      by_item none e = absurd (p.absent (query (dep c).index) (rw (← l.index) e) l.size_known)
      by_item (some bytes) e =
          let size = p.size (query (dep c).index) bytes (rw (← l.index) e) in
          record {
            lead = take 2 (args c);
            hash = code_hash (args c);
            kind = hash_type (args c);
            rest = drop 35 (args c);
            bytes = bytes;
            script_loaded = l.script_loaded;
            script_fits = l.script_fits;
            script_valid = l.script_valid;
            layout = args-layout (args c) l.args_long;
            two_bytes = omega (arith, length-take 2 (args c), l.args_long);
            hash_bytes =
                omega
                  (arith, length-take 32 (drop 2 (args c)), length-drop 2 (args c), l.args_long);
            dep_found = l.dep_found;
            index = l.index;
            content = e;
            size = omega (arith, l.size, size);
            not_empty = omega (arith, l.not_empty, l.size, size);
          }

  named-IsLocated : (info : CodeInfo) → IsNamed c item info → IsLocated c info
  named-IsLocated info v =
      let (of_hash, of_kind, long) =
        layout_read v.lead v.hash v.rest v.kind v.two_bytes v.hash_bytes in
      let same : dep c ≡ c.look_for_dep_with_hash2 v.hash v.kind =
        ap₂ c.look_for_dep_with_hash2 (ap code_hash v.layout ∙ of_hash)
          (ap hash_type v.layout ∙ of_kind) in
      let index : info.index ≡ (dep c).index = v.index ∙ ap (λ (d : Dep). d.index) (sym same) in
      let here : item (dep c).index c.source_cell_dep 0 ≡ some v.bytes = rw (← index) v.content in
      let size = p.size (query (dep c).index) v.bytes here in
      record {
        script_loaded = v.script_loaded;
        script_fits = v.script_fits;
        script_valid = v.script_valid;
        args_long = rw v.layout long;
        dep_found = ap (λ (d : Dep). d.err) same ∙ v.dep_found;
        size_known = p.no_error (query (dep c).index) v.bytes here;
        index = index;
        size = omega (arith, v.size, size);
        not_empty = omega (arith, v.size, v.not_empty);
      }

  -- Over a machine whose cell data load as documented, `load_cell_code_info` succeeds with an index
  -- and a size exactly if the script loads, fits into its buffer and is valid, its arguments are
  -- two bytes, a code hash of 32 bytes, a byte for the kind of hash and any others, the dependency
  -- with that hash of that kind is found and is at the index, and the cell there has data, which
  -- are not empty and of the size.
  pub load_cell_code_info_iff :
      (info : CodeInfo) → (load_cell_code_info c ≡ ok info) ↔ IsNamed c item info
  load_cell_code_info_iff info =
      let (located, back) = load_cell_code_info-IsLocated c info in
      (λ e. located-IsNamed info (located e), λ v. back (named-IsLocated info v))

-- Over a machine whose cell data load as documented, a program that is found is loaded whole:
-- the buffer then holds exactly the bytes of the cell at that index.
pub load_cell_code-whole :
    (c : Chain) {item : (index source field : ℕ) → Option (List ℕ)} {info : CodeInfo}
    (bytes : List ℕ)
    → IsPartialLoad (by_index c.load_cell_data) item
    → load_cell_code_info c ≡ ok info
    → item info.index c.source_cell_dep 0 ≡ some bytes
    → (load_cell_code c info ≡ ok bytes) × (info.buf_size ≡ length bytes)
unfolding load_cell_code
load_cell_code-whole c {item} {info} bytes p found e =
    let located = (load_cell_code_info-IsLocated c info).0 found in
    let size : info.buf_size ≡ length bytes =
      omega (arith, located.size, p.size (query located) bytes (here located)) in
    (
      ground (
        arith,
        p.no_error load bytes e,
        p.front load bytes e refl,
        take_all info.buf_size bytes (omega (arith, size)),
      ),
      size,
    )
  where
    at : LoadData
    at = record {
      length = 0;
      index = info.index;
      source = c.source_cell_dep;
      offset = 0;
      field = 0;
    }

    load : Request
    load = record { has_buffer = true; len = info.buf_size; args = at }

    query : IsLocated c info → Request
    query l = record { has_buffer = false; len = 0; args = record at { index = (dep c).index } }

    here : (l : IsLocated c info) → item (dep c).index c.source_cell_dep 0 ≡ some bytes
    here l = rw (← l.index) e
