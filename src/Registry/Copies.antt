-- ===== src/Registry/Copies.antt =====
-- `Proxy_CopyFrom` of proxy.c as a whole: the bytes of a value are copied into a block of malloc, which
-- a new proxy owns.
use pycallocs.Prelude.{
  ℕ, ◌+◌, ◌-◌, ◌≡◌, ◌≢◌, ◌<◌, refl, ap, ◌∙◌, ◌⊎◌, inl, inr, arith, Option, none, some,
}
use pycallocs.Memory.{Mem, memcpy}
use pycallocs.Memory.Frame.{SameOutside, SameOutside-memcpy, memcpy-inside}
use pycallocs.Registry.{
  Registry, update, Got, allocated, create, register_new, proxy_register, with_result,
  register_copy, proxy_copy_from,
}
use pycallocs.Registry.State.{Owned, one_more}
use pycallocs.Registry.Drop.{IsSound}
use pycallocs.Registry.Create.{allocated-IsSound, registered-IsSound}

-- The memory, and what the registry gives.
pub record CopyMade : Type 0 where
  pub mem : Mem
  pub got : Got

-- The bytes are copied if there is an object to own them.
unfoldable pub copied_bytes : ℕ → ℕ → ℕ → Mem → Option ℕ → Mem
copied_bytes size block src m none = m
copied_bytes size block src m (some o) = memcpy size m block src

-- Proxy_CopyFrom, with the block that malloc gives for `size` bytes
unfoldable pub copy_value : (Registry → Option ℕ) → ℕ → ℕ → ℕ → ℕ → Mem → Registry → CopyMade
unfolding copied_bytes proxy_copy_from
copy_value new size block type src m s = record {
  mem = copied_bytes size block src m (new s);
  got = proxy_copy_from new block type s;
}

-- A proxy of the block, registered for it and owned by the caller, and in the block the bytes of the
-- source; nothing else is written.
pub record IsCopy (size block type src : ℕ) (w : Owned) (m : Mem) (s : Registry) (r : CopyMade)
    : Type 0 where
  pub o : ℕ
  pub after : Registry
  pub given : r.got ≡ some (after, some o)
  pub at : after.p_ptr o ≡ block
  pub of_type : after.types o ≡ type
  pub held : after.refs o ≡ 1
  pub pointing : after.pointing ≡ s.pointing
  pub others : (a : ℕ) → a ≢ block → after.proxy_dict a ≡ s.proxy_dict a
  pub registered : after.proxy_dict block ≡ some o
  pub sound : IsSound (one_more o w) after
  pub bytes : (i : ℕ) → i < size → r.mem (block + i) ≡ m (src + i)
  pub same : SameOutside block size m r.mem

module _ (new : Registry → Option ℕ)
    (fresh : (s : Registry) (o : ℕ) → new s ≡ some o → s.refs o ≡ 0) (size block type src : ℕ)
    (w : Owned) (m : Mem) (s : Registry) where
  memcpy-nth : (i : ℕ) → i < size → memcpy size m block src (block + i) ≡ m (src + i)
  memcpy-nth i lt =
      let offset : src + (block + i - block) ≡ src + i = omega arith in
      memcpy-inside size m block src (block + i) (omega arith) (omega arith) ∙ ap m offset

  made-IsCopy :
      (o : ℕ) (found : Option ℕ)
      → IsSound w s
      → s.refs o ≡ 0
      → (allocated block type s o).proxy_dict ((allocated block type s o).p_ptr o) ≡ found
      → found ≡ none
      → IsCopy size block type src w m s (record {
        mem = memcpy size m block src;
        got = with_result (some o) (register_new o (allocated block type s o) found);
      })
  unfolding with_result register_new allocated
  made-IsCopy o (some p) v free eq lacking = absurd cc
  made-IsCopy o none v free eq lacking =
      let s' = allocated block type s o in
      let at : s'.p_ptr o ≡ block = ground arith in
      record {
        o = o;
        after = record s' { proxy_dict = update s'.proxy_dict (s'.p_ptr o) (some o) };
        given = refl;
        at = at;
        of_type = ground arith;
        held = ground arith;
        pointing = refl;
        others = λ a other. ground arith;
        registered = ground arith;
        sound =
            registered-IsSound (one_more o w) s' o (allocated-IsSound w s block type o v free)
              (ground arith);
        bytes = memcpy-nth;
        same = SameOutside-memcpy size m block src;
      }

  copied_bytes-IsCopy :
      (made : Option ℕ)
      → new s ≡ made
      → IsSound w s
      → s.proxy_dict block ≡ none
      → let r : CopyMade = record {
        mem = copied_bytes size block src m made;
        got = register_copy (create block type s made);
      } in
        ((new s ≡ none) × (r.got ≡ some (s, none)) × (r.mem ≡ m))
        ⊎ IsCopy size block type src w m s r
  unfolding copied_bytes register_copy create proxy_register allocated
  copied_bytes-IsCopy none eq v free = inl (eq, refl, refl)
  copied_bytes-IsCopy (some o) eq v free =
      let s' = allocated block type s o in
      inr (
        made-IsCopy o (s'.proxy_dict (s'.p_ptr o)) v (fresh s o eq) refl
          (let at : s'.p_ptr o ≡ block = ground arith in ap s.proxy_dict at ∙ free))

  -- Copying a value. Either Python has no memory for the proxy: it returns NULL, and neither the
  -- registry nor the memory changes. Or it returns a new proxy, of the type, of the block that malloc
  -- gave, registered for it, with one reference, the caller's; the block holds the bytes of the
  -- value, nothing outside it is written, no other entry of the registry changes, and all counts stay
  -- right. The block has no proxy before,
  -- and Python's memory is free when it is given.
  pub copy_value_cases :
      IsSound w s
      → s.proxy_dict block ≡ none
      → let r = copy_value new size block type src m s in
        ((new s ≡ none) × (r.got ≡ some (s, none)) × (r.mem ≡ m))
        ⊎ IsCopy size block type src w m s r
  unfolding copy_value
  copy_value_cases v free = copied_bytes-IsCopy (new s) refl v free
