-- ===== src/ConfigStore/Reload.antt =====
-- Saving the store with export and loading what was saved, in any order.
use meshtastic_zephyr.Prelude.{
  ◌≡◌, refl, sym, inl, inr, List, [], ◌∷◌, map, Option, none, ok, Errno, arith, Result-cases,
  Option-cases,
}
use mathlib.Core.Path.{subst}
use mathlib.Core.List.{Memᴰ}
use meshtastic_zephyr.ConfigStore.{Store, Library}
use meshtastic_zephyr.ConfigStore.Sizes.{get_by_key-fits}
use meshtastic_zephyr.ConfigStore.Keys.{
  Part, IsPart, key_of, all_parts, all_parts-Mem, all_parts-IsPart,
}
use meshtastic_zephyr.ConfigStore.Restore.{
  IsStore, IsLibrary, IsNanopb, Full, IsFull, library-IsNanopb, put, set-get,
}
use meshtastic_zephyr.ConfigStore.Parts.{
  Agrees, IsSized, put-IsSized, put-Agrees, put-keeps, all-Agrees,
}
use meshtastic_zephyr.ConfigStore.Settings.{
  classify, Setting, setting_get, store_value_max, export_each, export, settings_set_cb, load,
}

-- A setting that holds a part of `s`
record Holds (l : Library) (s : Store) (p : Part) (r : Setting) : Type 0 where
  pub part : IsPart p
  pub key : r.key ≡ key_of p
  pub value : setting_get l (key_of p) store_value_max s ≡ ok r.value

settings_set_cb-Holds :
    (l : Library) (s : Store) (p : Part) (r : Setting) (t : Store)
    → IsNanopb l s
    → IsStore s
    → Holds l s p r
    → settings_set_cb l t r ≡ put p s t
unfolding settings_set_cb setting_get
settings_set_cb-Holds l s p r t lib st h =
    let fits = get_by_key-fits l (classify (key_of p)) s r.value lib h.value in
    let set = set-get l s p lib st h.part t r.value h.value in
    rw (h.key, set) (ground (arith, fits))

-- The settings hold the parts one by one.
data AreHeld (l : Library) (s : Store) : List Part → List Setting → Type 0 where
  none_held : AreHeld l s [] []
  held :
      {p : Part} {r : Setting} {ps : List Part} {rs : List Setting}
      → Holds l s p r
      → AreHeld l s ps rs
      → AreHeld l s (p ∷ ps) (r ∷ rs)

export_each-AreHeld :
    (l : Library) (f : Setting → Option Errno) (s : Store) (ps : List Part) (rs : List Setting)
    → ((p : Part) → Memᴰ p ps → IsPart p)
    → export_each l f s (map key_of ps) ≡ (none, rs)
    → AreHeld l s ps rs
unfolding export_each
export_each-AreHeld l f s [] [] parts e = none_held
export_each-AreHeld l f s [] (r ∷ rs) parts e = absurd (cc e)
export_each-AreHeld l f s (p ∷ ps) rs parts e =
    elim (Result-cases (setting_get l (key_of p) store_value_max s)) [
      | inl (why, fails) ↦ absurd (ground (arith, fails))
      | inr (value, got) ↦ elim (Option-cases (f (record { key = key_of p; value = value }))) [
        | inr (why, refused) ↦ absurd (ground (arith, got, refused))
        | inl accepted ↦
            let r : Setting = record { key = key_of p; value = value } in
            let rest = export_each l f s (map key_of ps) in
            let all : rs ≡ r ∷ rest.1 = ground (arith, got, accepted) in
            let more : rest ≡ (none, rest.1) = ground (arith, got, accepted) in
            let h : Holds l s p r = record {
              part = parts p (Memᴰ.head refl);
              key = refl;
              value = got;
            } in
            subst (AreHeld l s (p ∷ ps)) (sym all)
              (held h (export_each-AreHeld l f s ps rest.1 (λ q m. parts q (Memᴰ.tail m)) more))
      ]
    ]

AreHeld-part :
    {l : Library} {s : Store} {ps : List Part} {rs : List Setting} {p : Part}
    → AreHeld l s ps rs
    → Memᴰ p ps
    → (r : Setting) × Memᴰ r rs × Holds l s p r
AreHeld-part none_held m = elim m [ ]
AreHeld-part {l} {s} (held {r = r} h a) (Memᴰ.head e) =
    (r, Memᴰ.head refl, subst (λ q. Holds l s q r) (sym e) h)
AreHeld-part (held h a) (Memᴰ.tail m) =
    let (r, found, holds) = AreHeld-part a m in (r, Memᴰ.tail found, holds)

AreHeld-setting :
    {l : Library} {s : Store} {ps : List Part} {rs : List Setting} {r : Setting}
    → AreHeld l s ps rs
    → Memᴰ r rs
    → (p : Part) × Holds l s p r
AreHeld-setting none_held m = elim m [ ]
AreHeld-setting {l} {s} (held {p = p} h a) (Memᴰ.head e) = (p, subst (Holds l s p) (sym e) h)
AreHeld-setting (held h a) (Memᴰ.tail m) = AreHeld-setting a m

module _ (l : Library) (s : Store) (lib : IsNanopb l s) (st : IsStore s) where
  AllHeld : List Setting → Type 0
  AllHeld rs = (r : Setting) → Memᴰ r rs → (p : Part) × Holds l s p r

  -- Loading settings of `s` keeps the parts that are right already.
  load-keeps :
      (rs : List Setting) (t : Store) (q : Part)
      → AllHeld rs
      → IsSized t
      → Agrees q s t
      → Agrees q s (load l t rs) × IsSized (load l t rs)
  unfolding load AllHeld
  load-keeps [] t q all sized a = (a, sized)
  load-keeps (r ∷ rs) t q all sized a =
      let (p, h) = all r (Memᴰ.head refl) in
      rw (settings_set_cb-Holds l s p r t lib st h) (
        load-keeps rs (put p s t) q (λ x m. all x (Memᴰ.tail m)) (put-IsSized p s t sized)
          (put-keeps p q s t h.part sized a))

  load-Agrees :
      (rs : List Setting) (t : Store) (q : Part) (r : Setting)
      → AllHeld rs
      → IsSized t
      → Memᴰ r rs
      → Holds l s q r
      → Agrees q s (load l t rs)
  unfolding load AllHeld
  load-Agrees [] t q r all sized m h = elim m [ ]
  load-Agrees (x ∷ rs) t q r all sized (Memᴰ.head e) h =
      rw (settings_set_cb-Holds l s q x t lib st (subst (Holds l s q) e h))
        (load-keeps rs (put q s t) q (λ y m. all y (Memᴰ.tail m)) (put-IsSized q s t sized)
          (put-Agrees q s t h.part sized)).0
  load-Agrees (x ∷ rs) t q r all sized (Memᴰ.tail m) h =
      let (p, hx) = all x (Memᴰ.head refl) in
      rw (settings_set_cb-Holds l s p x t lib st hx)
        (load-Agrees rs (put p s t) q r (λ y n. all y (Memᴰ.tail n)) (put-IsSized p s t sized) m h)

  load-IsSized : (rs : List Setting) (t : Store) → AllHeld rs → IsSized t → IsSized (load l t rs)
  unfolding load AllHeld
  load-IsSized [] t all sized = sized
  load-IsSized (r ∷ rs) t all sized =
      let (p, h) = all r (Memᴰ.head refl) in
      rw (settings_set_cb-Holds l s p r t lib st h)
        (load-IsSized rs (put p s t) (λ x m. all x (Memᴰ.tail m)) (put-IsSized p s t sized))

-- If export returns 0, and no message of the store has data under a `has_` flag that is false, then loading
-- the settings that it wrote, in any order and as often as one likes, into any store with arrays of the
-- right size, gives the exported store.
pub load-export :
    (l : Library) (w : Full) (s t : Store) (f : Setting → Option Errno) (calls rs : List Setting)
    → IsLibrary l w
    → IsStore s
    → IsFull w s
    → IsSized t
    → export l f s ≡ (none, calls)
    → ((r : Setting) → Memᴰ r rs → Memᴰ r calls)
    → ((r : Setting) → Memᴰ r calls → Memᴰ r rs)
    → load l t rs ≡ s
unfolding export AllHeld
load-export l w s t f calls rs library st full sized e only every =
    let lib = library-IsNanopb l w s library full in
    let a = export_each-AreHeld l f s all_parts calls all_parts-IsPart e in
    let all : AllHeld l s lib st rs = (λ r m. AreHeld-setting a (only r m)) in
    let whole : IsSized s = record {
      channels_len = st.channels_len;
      configs_len = st.configs_len;
      modules_len = st.modules_len;
    } in
    all-Agrees s (load l t rs) whole (load-IsSized l s lib st rs t all sized) (λ p part.
      let (r, m, h) = AreHeld-part a (all_parts-Mem p part) in
      load-Agrees l s lib st rs t p r all sized (every r m) h)
