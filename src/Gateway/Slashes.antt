-- ===== src/Gateway/Slashes.antt =====
-- The segments of a path between slashes of one kind and of both, for gateway/handlers.go.
use Prim.Native.Char.{code}
use omnicore_proxy.Base.{
  ◌≡◌, ◌⊎◌, inl, inr, refl, sym, ap, subst, ◌∙◌, String, str_eq, eq_iff, List, [], ◌∷◌, Bool, true,
  false, ◌||◌, ◌==◌, arith, Bool-cases,
}
use omnicore_proxy.Base.Paths.{segments, IsForward}
use omnicore_proxy.Gateway.Handlers.{segments_both, leads_back}

pub leads_back-IsForward : (ss : List String) → leads_back ss ≡ false → IsForward ss
unfolding leads_back
leads_back-IsForward [] h = tt
leads_back-IsForward (s ∷ ss) h = (ground arith, leads_back-IsForward ss (ground arith))

has_backslash : String → Bool
has_backslash String.[] = false
has_backslash (String.◌∷◌ c s) = code c == 92 || has_backslash s

pub true_is_not_false : true ≡ false → ⊥
true_is_not_false h = ground arith

has_backslash-forward : (s : String) → has_backslash s ≡ true → str_eq s ".." ≡ false
unfolding has_backslash
has_backslash-forward s h = elim (Bool-cases (str_eq s "..")) [
  | inr e ↦ e
  | inl e ↦ absurd (true_is_not_false (sym h ∙ ap has_backslash ((eq_iff s "..").0 e)))
]

-- The first segment is the same between slashes of both kinds, or has a backslash in it.
record IsCoarser (fine coarse : List String) : Type 0 where
  t : String
  ts : List String
  u : String
  us : List String
  fine_cons : fine ≡ t ∷ ts
  coarse_cons : coarse ≡ u ∷ us
  first : (u ≡ t) ⊎ (has_backslash u ≡ true)
  rest : IsForward ts → IsForward us

IsCoarser-IsForward_rest :
    {fine coarse : List String} → (i : IsCoarser fine coarse) → IsForward fine → IsForward i.us
IsCoarser-IsForward_rest i h =
    let both : IsForward (i.t ∷ i.ts) = subst IsForward i.fine_cons h in i.rest both.1

IsCoarser-IsForward :
    {fine coarse : List String} → IsCoarser fine coarse → IsForward fine → IsForward coarse
IsCoarser-IsForward i h =
    let both : IsForward (i.t ∷ i.ts) = subst IsForward i.fine_cons h in
    subst IsForward (sym i.coarse_cons)
      (elim i.first [ inl e ↦ rw e both.0 | inr b ↦ has_backslash-forward i.u b ], i.rest both.1)

segments-IsCoarser : (s : String) → IsCoarser (segments_both s) (segments s)
unfolding segments segments_both has_backslash
segments-IsCoarser String.[] = record {
  t = "";
  ts = [];
  u = "";
  us = [];
  fine_cons = refl;
  coarse_cons = refl;
  first = inl refl;
  rest = λ h. h;
}
segments-IsCoarser (String.◌∷◌ c s) =
    let before = segments-IsCoarser s in
    elim (Bool-cases (code c == 47)) [
      | inl slash ↦ record {
        t = "";
        ts = segments_both s;
        u = "";
        us = segments s;
        fine_cons = rw slash refl;
        coarse_cons = rw slash refl;
        first = inl refl;
        rest = IsCoarser-IsForward before;
      }
      | inr other ↦ elim (Bool-cases (code c == 92)) [
        | inl back ↦ record {
          t = "";
          ts = segments_both s;
          u = String.◌∷◌ c before.u;
          us = before.us;
          fine_cons = rw (other, back) refl;
          coarse_cons = rw (other, before.coarse_cons) refl;
          first = inr (rw back refl);
          rest = λ h. (IsCoarser-IsForward_rest before h);
        }
        | inr plain ↦ record {
          t = String.◌∷◌ c before.t;
          ts = before.ts;
          u = String.◌∷◌ c before.u;
          us = before.us;
          fine_cons = rw (other, plain, before.fine_cons) refl;
          coarse_cons = rw (other, before.coarse_cons) refl;
          first = elim before.first [
            | inl e ↦ inl (ap (String.◌∷◌ c) e)
            | inr b ↦ inr (rw (plain, b) refl)
          ];
          rest = before.rest;
        }
      ]
    ]

-- A path that `http.ServeFile` takes has no segment that leads back.
pub segments_both-IsForward : (s : String) → IsForward (segments_both s) → IsForward (segments s)
segments_both-IsForward s h = IsCoarser-IsForward (segments-IsCoarser s) h
