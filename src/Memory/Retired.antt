-- ===== src/Memory/Retired.antt =====
-- context/memory_repository.py: a session whose messages were deleted.
use hommey.Memory.Rows.{SessionRecord, is_active}
use hommey.Memory.Sessions.{is_kept_reason, is_owned, is_session}
use hommey.Prelude.{
  All, All-In, All-append, All-update_where, Bool, Bool-cases, In, List, String, [], any,
  any-append, arith, eq_iff, false, inl, inr, refl, subst, true, update_where, ◌++◌, ◌∷◌, ◌≡◌,
}

module _ (user sid : String) where
  -- Closed for good.
  abbrev pub IsRetired : SessionRecord → Type 0
  IsRetired s =
      is_owned user sid s ≡ true
      → (is_active s.status ≡ false) × (is_kept_reason s.close_reason ≡ false)

  pub record AreRetired (ss : List SessionRecord) : Type 0 where
    pub retired : All IsRetired ss
    pub there : any (is_session sid) ss ≡ true

  pub any-update :
      (p : SessionRecord → Bool) (f : SessionRecord → SessionRecord) (ss : List SessionRecord)
      → ((s : SessionRecord) → (f s).session_id ≡ s.session_id)
      → any (is_session sid) ss ≡ true
      → any (is_session sid) (update_where p f ss) ≡ true
  any-update p f [] k h = h
  any-update p f (s ∷ ss) k h = elim (Bool-cases (is_session sid s)) [
    | inl b ↦ elim (Bool-cases (p s)) [ inl c ↦ rw (c, k s, b) refl | inr c ↦ rw (c, b) refl ]
    | inr b ↦
        let rest = any-update p f ss k (ground (arith, b, h)) in
        elim (Bool-cases (p s)) [ inl c ↦ rw (c, k s, b) rest | inr c ↦ rw (c, b) rest ]
  ]

  pub update-AreRetired :
      (p : SessionRecord → Bool) (f : SessionRecord → SessionRecord) (ss : List SessionRecord)
      → ((s : SessionRecord) → (f s).session_id ≡ s.session_id)
      → ((s : SessionRecord) → In s ss → p s ≡ true → IsRetired s → IsRetired (f s))
      → AreRetired ss
      → AreRetired (update_where p f ss)
  update-AreRetired p f ss k g h = record {
    retired =
        All-update_where p f ss (λ s b i q. g s i b q) (All-In (λ s. In s ss) ss (λ s i. i))
          h.retired;
    there = any-update p f ss k h.there;
  }

  -- A statement that picks open rows picks none that is retired.
  pub open-kept :
      (p : SessionRecord → Bool) (f : SessionRecord → SessionRecord)
      → ((s : SessionRecord) → (f s).session_id ≡ s.session_id)
      → ((s : SessionRecord) → (f s).user_id ≡ s.user_id)
      → ((s : SessionRecord) → p s ≡ true → is_active s.status ≡ true)
      → (s : SessionRecord) → p s ≡ true
      → IsRetired s
      → IsRetired (f s)
  open-kept p f k u a s b q o =
      let own : is_owned user sid s ≡ true = rw (k s, u s) at o in
      absurd (ground (arith, (q own).0, a s b))

  pub snoc-AreRetired :
      (s : SessionRecord) (ss : List SessionRecord)
      → any (is_session s.session_id) ss ≡ false
      → AreRetired ss
      → AreRetired (ss ++ s ∷ [])
  snoc-AreRetired s ss fresh h = record {
    retired = All-append IsRetired ss s h.retired (λ o.
        let e : s.session_id ≡ sid = (eq_iff s.session_id sid).0 (ground (arith, o)) in
        absurd (ground (arith, h.there, subst (λ t. any (is_session t) ss ≡ false) e fresh)));
    there = any-append (is_session sid) ss (s ∷ []) h.there;
  }
