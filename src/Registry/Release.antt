-- ===== src/Registry/Release.antt =====
-- The calls that free proxies in proxy.c: each ends, and keeps the registry valid.
use pycallocs.Prelude.{
  ℕ, zero, suc, ◌-◌, ◌≡◌, ◌≢◌, ◌≤◌, ◌<◌, refl, sym, ap, ◌∙◌, inl, inr, arith, Bool, true, false,
  Option, none, some, List, [], ◌∷◌, ◌==◌, Bool-cases, length,
}
use pycallocs.Registry.{
  From, foreign, field, same, lookup, erase, Registry, update, is_this, unregistered, then_do,
  forget, del_refs, unregister, proxy_dealloc, released, del_found, del_ref,
}
use pycallocs.Registry.Entries.{
  lookup-erase_self, lookup-erase-none, lookup-erase_ne, same→eq, length-erase,
}
use pycallocs.Registry.Shrinks.{Shrinks-refl, Shrinks-trans, Ends, Deletes, then_do-Ends}
use pycallocs.Registry.State.{
  Owned, one_more, IsValid, erase-IsValid, kept-IsValid, dies-IsValid, unregistered-IsValid,
  freed-IsValid,
}

-- A field whose entry is deleted is one of a proxy without references.
abbrev pub IsFree : From → Registry → Type 0
IsFree f s = (o : ℕ) → f ≡ field o → s.refs o ≡ 0

is_this-ne : (m : Option ℕ) (o : ℕ) → is_this m o ≡ false → m ≢ some o
is_this-ne none o h e = cc
is_this-ne (some p) o h e = ground arith

module _ (detached : ℕ → List ℕ) (del : From → Registry → Option Registry) (n : ℕ)
    (call : (dying : List ℕ) (w : Owned) (f : From) (s : Registry)
      → IsFree f s
      → IsValid dying w s
      → length s.pointing < n
      → Deletes dying w f s (del f s)) where
  del_refs-Ends :
      (dying : List ℕ) (w : Owned) (froms : List ℕ) (s : Registry)
      → IsValid dying w s
      → length s.pointing < n
      → Ends dying w s (del_refs detached del froms s)
  unfolding del_refs
  del_refs-Ends dying w [] s v fuel = record {
    after = s;
    ended = refl;
    valid = v;
    shrinks = Shrinks-refl s;
  }
  del_refs-Ends dying w (a ∷ froms) s v fuel =
      let first = (call dying w (foreign a) s (λ o eq. cc) v fuel).ends in
      let less = first.shrinks.shorter in
      then_do-Ends dying w s (del (foreign a) s) (del_refs detached del froms) first
        (del_refs-Ends dying w froms first.after first.valid (omega arith))

  -- Afterwards `proxy_dict` does not know the proxy.
  pub record Unregisters (o : ℕ) (dying : List ℕ) (w : Owned) (s : Registry) (r : Option Registry)
      : Type 0 where
    pub ends : Ends (o ∷ dying) w s r
    pub out : (a : ℕ) → ends.after.proxy_dict a ≢ some o

  forget-Unregisters :
      (o : ℕ) (dying : List ℕ) (w : Owned) (s : Registry) (r : Option Registry)
      → Ends (o ∷ dying) w s r
      → Unregisters o dying w s (forget (s.p_ptr o) r)
  unfolding forget
  forget-Unregisters o dying w s r first = record {
    ends = record {
      after = unregistered (s.p_ptr o) first.after;
      ended = rw first.ended refl;
      valid = unregistered-IsValid (o ∷ dying) w first.after (s.p_ptr o) first.valid;
      shrinks = record {
        p_ptr = first.shrinks.p_ptr;
        types = first.shrinks.types;
        registered = λ a. elim (Bool-cases (s.p_ptr o == a)) [
          | inl here ↦ inl (rw here refl)
          | inr other ↦ rw other (first.shrinks.registered a)
        ];
        keys = first.shrinks.keys;
        refs = first.shrinks.refs;
        fields = first.shrinks.fields;
        shorter = first.shrinks.shorter;
      };
    };
    out = λ a found. elim (Bool-cases (s.p_ptr o == a)) [
      | inl here ↦ let nothing : none ≡ some o = simp here at found in cc
      | inr other ↦
          let found' : first.after.proxy_dict a ≡ some o = simp other at found in
          let (at, alive) = first.valid.registered a o found' in
          let at' : s.p_ptr o ≡ a = ap (λ f. f o) (sym first.shrinks.p_ptr) ∙ at in
          absurd (ground arith)
    ];
  }

  unregister-Unregisters :
      (o : ℕ) (dying : List ℕ) (w : Owned) (s : Registry) (b : Bool)
      → is_this (s.proxy_dict (s.p_ptr o)) o ≡ b
      → IsValid (o ∷ dying) w s
      → length s.pointing < n
      → Unregisters o dying w s (unregister detached del o s b)
  unfolding unregister
  unregister-Unregisters o dying w s true eq v fuel =
      forget-Unregisters o dying w s _ (del_refs-Ends (o ∷ dying) w (detached (s.p_ptr o)) s v fuel)
  unregister-Unregisters o dying w s false eq v fuel = record {
    ends = record { after = s; ended = refl; valid = v; shrinks = Shrinks-refl s };
    out = λ a found.
        let (at, alive) = v.registered a o found in
        absurd (is_this-ne _ o eq (ap s.proxy_dict at ∙ found));
  }

  proxy_dealloc-Ends :
      (o : ℕ) (dying : List ℕ) (w : Owned) (s : Registry)
      → s.refs o ≡ 0
      → IsValid (o ∷ dying) w s
      → length s.pointing < n
      → Ends dying w s (proxy_dealloc detached del o s)
  unfolding proxy_dealloc then_do
  proxy_dealloc-Ends o dying w s free v fuel =
      let first =
        unregister-Unregisters o dying w s (is_this (s.proxy_dict (s.p_ptr o)) o) refl v fuel in
      let s' = first.ends.after in
      let less = first.ends.shrinks.shorter in
      let still_free = λ (p : ℕ) (eq : field o ≡ field p).
        let fewer = first.ends.shrinks.refs o in
        let eq' : o ≡ p = cc in
        let none_left : s'.refs o ≡ 0 = omega arith in ap s'.refs (sym eq') ∙ none_left in
      let second = call (o ∷ dying) w (field o) s' still_free first.ends.valid (omega arith) in
      let s'' = second.ends.after in
      record {
        after = s'';
        ended = rw first.ends.ended second.ends.ended;
        valid =
            freed-IsValid dying w s'' o
              (λ a found. elim (second.ends.shrinks.registered a) [
                | inl out ↦ cc
                | inr kept ↦ absurd (first.out a (sym kept ∙ found))
              ])
              second.gone second.ends.valid;
        shrinks = Shrinks-trans s s' s'' first.ends.shrinks second.ends.shrinks;
      }

  -- New counts are no addition.
  refs-Shrinks :
      (dying : List ℕ) (w : Owned) (s : Registry) (refs' : ℕ → ℕ) (r : Option Registry)
      → ((o : ℕ) → refs' o ≤ s.refs o)
      → Ends dying w (record s { refs = refs' }) r
      → Ends dying w s r
  refs-Shrinks dying w s refs' r fewer e = record {
    after = e.after;
    ended = e.ended;
    valid = e.valid;
    shrinks = record {
      p_ptr = e.shrinks.p_ptr;
      types = e.shrinks.types;
      registered = e.shrinks.registered;
      keys = e.shrinks.keys;
      refs = λ o. let less = e.shrinks.refs o in let less' = fewer o in omega arith;
      fields = e.shrinks.fields;
      shorter = e.shrinks.shorter;
    };
  }

  -- Py_DECREF of a reference in hand.
  pub released-Ends :
      (o : ℕ) (dying : List ℕ) (w : Owned) (s : Registry) (k : ℕ)
      → s.refs o - 1 ≡ k
      → IsValid dying (one_more o w) s
      → length s.pointing < n
      → Ends dying w s (released detached del o s k)
  unfolding released
  released-Ends o dying w s zero left v fuel =
      refs-Shrinks dying w s (update s.refs o 0) _ (λ p. ground arith)
        (proxy_dealloc-Ends o dying w _ (ground arith) (dies-IsValid dying w s o left v) fuel)
  released-Ends o dying w s (suc k) left v fuel =
      refs-Shrinks dying w s (update s.refs o (suc k)) _ (λ p. ground arith)
        (record {
          after = record s { refs = update s.refs o (suc k) };
          ended = refl;
          valid = kept-IsValid dying w s o k left v;
          shrinks = Shrinks-refl _;
        })

  erased-Deletes :
      (f : From) (o : ℕ) (dying : List ℕ) (w : Owned) (s : Registry) (r : Option Registry)
      → lookup f s.pointing ≡ some o
      → IsFree f s
      → IsValid dying w s
      → Ends dying w (record s { pointing = erase f s.pointing }) r
      → Deletes dying w f s r
  erased-Deletes f o dying w s r found free v e =
      let fewer = length-erase f s.pointing o found in
      let less = e.shrinks.shorter in
      record {
        ends = record {
          after = e.after;
          ended = e.ended;
          valid = e.valid;
          shrinks = record {
            p_ptr = e.shrinks.p_ptr;
            types = e.shrinks.types;
            registered = e.shrinks.registered;
            keys = λ g h. e.shrinks.keys g (lookup-erase-none f g s.pointing h);
            refs = e.shrinks.refs;
            fields = λ p. elim (Bool-cases (same f (field p))) [
              | inl eq ↦
                  let none_left = free p (same→eq f (field p) eq) in
                  let fewer' = e.shrinks.refs p in inr (omega arith)
              | inr ne ↦ elim (e.shrinks.fields p) [
                | inl kept ↦ inl (kept ∙ lookup-erase_ne f (field p) s.pointing ne)
                | inr none_left ↦ inr none_left
              ]
            ];
            shorter = omega arith;
          };
        };
        gone = e.shrinks.keys f (lookup-erase_self f s.pointing v.unique);
      }

  del_found-Deletes :
      (f : From) (dying : List ℕ) (w : Owned) (s : Registry) (m : Option ℕ)
      → lookup f s.pointing ≡ m
      → IsFree f s
      → IsValid dying w s
      → length s.pointing < suc n
      → Deletes dying w f s (del_found detached del f s m)
  unfolding del_found
  del_found-Deletes f dying w s none lacking free v fuel = record {
    ends = record { after = s; ended = refl; valid = v; shrinks = Shrinks-refl s };
    gone = lacking;
  }
  del_found-Deletes f dying w s (some o) found free v fuel =
      let fewer = length-erase f s.pointing o found in
      erased-Deletes f o dying w s _ found free v (
        released-Ends o dying w (record s { pointing = erase f s.pointing }) _ refl
          (erase-IsValid dying w s f o found v) (omega arith))

-- Fuel for one call more than there are entries is enough.
pub del_ref-Deletes :
    (detached : ℕ → List ℕ) (n : ℕ) (dying : List ℕ) (w : Owned) (f : From) (s : Registry)
    → IsFree f s
    → IsValid dying w s
    → length s.pointing < n
    → Deletes dying w f s (del_ref detached n f s)
unfolding del_ref
del_ref-Deletes detached zero dying w f s free v fuel = absurd (omega arith)
del_ref-Deletes detached (suc n) dying w f s free v fuel =
    del_found-Deletes detached (del_ref detached n) n (del_ref-Deletes detached n) f dying w s
      (lookup f s.pointing) refl free v fuel
