-- ===== src/ArrayProxy/Create.antt =====
-- `arrayproxy_ctor` of address_proxy.c: what a new array holds.
use pycallocs.Prelude.{
  ℕ, ◌+◌, ◌*◌, ◌^◌, ◌≡◌, ◌≢◌, ◌≤◌, ◌<◌, refl, ◌⊎◌, inl, inr, arith, Bool, sym, Option, none, some,
  Result, List, length, pos, ◌∙◌, Error, ok, err, type_error,
}
use pycallocs.Memory.{Mem, zero_fill}
use pycallocs.Memory.Frame.{SameOutside, SameOutside-zero_fill, zero_fill-inside}
use pycallocs.Python.{Stored}
use pycallocs.AddressProxy.{ItemType, byte_count, init_values, init_sequence, addrproxy_init}
use pycallocs.AddressProxy.Items.{proxy}
use pycallocs.AddressProxy.Fill.{Filled, IsFilled, IsHalted, init_values_cases}
use pycallocs.ArrayProxy.{
  ArrayArgs, sized, integer, ArrayMade, no_array, made_array, create_array, array_by,
  arrayproxy_ctor,
}
use pycallocs.ArrayProxy.Blocks.{
  array_bytes, with_terminator, IsTerminated, one_more_item, items-SameOutside, items-IsTerminated,
  all_zero, create_array_lem,
}

created_zeros :
    {Obj : Type 0} (item : ItemType Obj) (malloc : ℕ → ℕ) (is_char : Bool) (n : ℕ)
    (sequence : Result (List Obj)) (m : Mem)
    → (n + 1) * item.size < 2 ^ 64
    → let p = malloc (array_bytes is_char n item.size) in
      create_array item is_char malloc
        (pos n)
        (record { nargs = 0; nkwargs = 0; sequence = sequence })
        m
      ≡ record {
        mem = zero_fill (n * item.size) (with_terminator is_char p n item.size m) p;
        proxy = some (proxy p n);
        error = none;
      }
unfolding addrproxy_init made_array byte_count
created_zeros item malloc is_char n sequence m small =
    create_array_lem item malloc is_char n (record { nargs = 0; nkwargs = 0; sequence = sequence })
      m small

ctor_integer :
    {Obj : Type 0} (item : ItemType Obj) (malloc : ℕ → ℕ) (is_char : Bool) (n : ℕ)
    (args : ArrayArgs Obj) (m : Mem)
    → args.nargs ≡ 1
    → args.nkwargs ≡ 0
    → args.first ≡ integer (ok (pos n))
    → arrayproxy_ctor item is_char malloc args m
      ≡ create_array item is_char malloc
          (pos n)
          (record { nargs = 0; nkwargs = 0; sequence = err type_error })
          m
unfolding arrayproxy_ctor array_by
ctor_integer item malloc is_char n args m one no_names given = simp (one, no_names, given)

module _ {Obj : Type 0} (item : ItemType Obj) (is_char : Bool) (malloc : ℕ → ℕ) where
  abbrev pub block_of : ℕ → ℕ
  block_of n = malloc (array_bytes is_char n item.size)

  -- The new proxy has all values, in a block of their size, and a string its terminator.
  pub record IsMade (vs : List Obj) (m : Mem) (r : ArrayMade) : Type 0 where
    pub proxy_is : r.proxy ≡ some (proxy (block_of (length vs)) (length vs))
    pub no_error : r.error ≡ none
    pub filled :
        Filled item
          (block_of (length vs))
          vs
          r.mem
          0
          (with_terminator is_char (block_of (length vs)) (length vs) item.size m)
    pub terminated : IsTerminated is_char (block_of (length vs)) (length vs) item.size r.mem

  pub record IsRefused (r : ArrayMade) : Type 0 where
    pub no_proxy : r.proxy ≡ none
    pub failed : r.error ≢ none

  made_array-IsMade :
      (vs : List Obj) (m : Mem) (s : Stored) (o : Option Error)
      → s.status ≡ o
      → let n = length vs in
        let m1 = with_terminator is_char (block_of n) n item.size m in
        IsFilled item (block_of n) vs n m1 s ⊎ IsHalted item (block_of n) n m1 s
        → let r = made_array (proxy (block_of n) n) s.mem o in
          (IsMade vs m r ⊎ IsRefused r)
          × SameOutside (block_of n) (array_bytes is_char n item.size) m r.mem
  unfolding made_array no_array
  made_array-IsMade vs m s none eq (inl f) =
      let n = length vs in
      (
        inl (record {
          proxy_is = refl;
          no_error = refl;
          filled = f.filled;
          terminated = items-IsTerminated is_char (block_of n) n item.size m s.mem f.same;
        }),
        items-SameOutside is_char (block_of n) n item.size m s.mem f.same,
      )
  made_array-IsMade vs m s none eq (inr h) = absurd (h.failed eq)
  made_array-IsMade vs m s (some e) eq (inl f) =
      let never : some e ≡ none = sym eq ∙ f.succeeded in absurd cc
  made_array-IsMade vs m s (some e) eq (inr h) =
      let n = length vs in
      (
        inr (record { no_proxy = refl; failed = λ e. cc }),
        items-SameOutside is_char (block_of n) n item.size m s.mem h.same,
      )

  -- A new array of given values, fewer than 4 GB with a string's terminator. The call returns a proxy
  -- of as many items as there are values, in a block that was allocated for exactly these: each item
  -- holds what storing its value wrote, and a string ends in a null character; or a value was
  -- refused, and it returns NULL with an exception. In both cases no byte outside the block changes.
  pub arrayproxy_ctor_cases :
      (args : ArrayArgs Obj) (vs : List Obj) (m : Mem)
      → args.nargs ≡ 1
      → args.nkwargs ≡ 0
      → args.first ≡ sized (length vs) (ok vs)
      → length vs < 2 ^ 32
      → (length vs + 1) * item.size < 2 ^ 32
      → let r = arrayproxy_ctor item is_char malloc args m in
        (IsMade vs m r ⊎ IsRefused r)
        × SameOutside (block_of (length vs)) (array_bytes is_char (length vs) item.size) m r.mem
  unfolding arrayproxy_ctor array_by addrproxy_init init_sequence
  arrayproxy_ctor_cases args vs m one no_names given short small =
      let n = length vs in
      let step = one_more_item n item.size in
      let m1 = with_terminator is_char (block_of n) n item.size m in
      let s = init_values item (proxy (block_of n) n) vs m1 in
      rw (one, no_names, given)
        (rw
          (create_array_lem item malloc is_char n
            (record { nargs = 1; nkwargs = 0; sequence = ok vs }) m (omega arith))
          (made_array-IsMade vs m s s.status refl
            (elim (init_values_cases item (block_of n) vs n m1 short (omega arith)) [
              | inl (lt, refused_all) ↦ absurd (omega arith)
              | inr (le, cases) ↦ cases
            ])))

  -- A new array of a given length, below 2 ^ 64 bytes with a string's terminator: the call returns a
  -- proxy of that length, in a block that was allocated for exactly its items; all bytes of the block
  -- are zero, and no other byte changes.
  pub arrayproxy_ctor-integer :
      (args : ArrayArgs Obj) (n : ℕ) (m : Mem)
      → args.nargs ≡ 1
      → args.nkwargs ≡ 0
      → args.first ≡ integer (ok (pos n))
      → (n + 1) * item.size < 2 ^ 64
      → let r = arrayproxy_ctor item is_char malloc args m in
        (r.proxy ≡ some (proxy (block_of n) n))
        × (r.error ≡ none)
        × ((q : ℕ)
            → block_of n ≤ q
            → q < block_of n + array_bytes is_char n item.size
            → r.mem q ≡ 0)
        × SameOutside (block_of n) (array_bytes is_char n item.size) m r.mem
  arrayproxy_ctor-integer args n m one no_names given small =
      let p = block_of n in
      let m1 = with_terminator is_char p n item.size m in
      let m2 = zero_fill (n * item.size) m1 p in
      let same = SameOutside-zero_fill (n * item.size) m1 p in
      rw
        (
          ctor_integer item malloc is_char n args m one no_names given,
          created_zeros item malloc is_char n (err type_error) m small,
        )
        (
          refl,
          refl,
          all_zero is_char p n item.size m2 (zero_fill-inside (n * item.size) m1 p)
              (items-IsTerminated is_char p n item.size m m2 same),
          items-SameOutside is_char p n item.size m m2 same,
        )
