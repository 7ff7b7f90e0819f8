-- ===== src/Server/SessionsManager/Results/Checked.antt =====
-- server/broadcast.go: which untrusted result the loop of `chooseResults` takes.
use Prim.Native.String.{String}
use livepeer.Base.{
  ℕ, ◌≡◌, ◌⊎◌, refl, ap, sym, ◌∙◌, subst, Bool, true, false, List, [], ◌∷◌, ◌++◌, Option, none,
  some, get_elem?, length, Bool-cases, Option-cases, inl, inr,
}
use mathlib.Core.List.{append_assoc, append-nil}
use livepeer.Server.Selection.{Session}
use livepeer.Server.SessionsManager.Results.{
  Received, Verified, chosen, panicked, download_failed, Choice, unverified, verify_untrusted,
  check_results,
}

module _ {H : Type 0} (get_segment_data : String → Option H) (compare_hashes : H → H → Bool) where
  -- The hash of the segment at an index compares to the trusted one in a way.
  pub record Compares (hash : H) (i : ℕ) (equal : Bool) (u : Received) : Type 0 where
    pub url : String
    pub other : H
    pub listed : get_elem? u.segments i ≡ some url
    pub downloaded : get_segment_data url ≡ some other
    pub compared : compare_hashes hash other ≡ equal

  abbrev pub AllDiffer : H → ℕ → List Received → Type 0
  AllDiffer hash i [] = Unit
  AllDiffer hash i (u ∷ l) = Compares hash i false u × AllDiffer hash i l

abbrev pub sessions_of : List Received → List Session
sessions_of [] = []
sessions_of (u ∷ l) = u.session ∷ sessions_of l

module _ {E H : Type 0} (get_segment_data : String → Option H) (compare_hashes : H → H → Bool) where
  -- The hash cannot be read, and this is what is returned.
  abbrev pub IsUnreadable : ℕ → Received → Choice E → Type 0
  IsUnreadable i u c =
      ((get_elem? u.segments i ≡ none) × (c ≡ panicked))
      ⊎ ((url : String) × (get_elem? u.segments i ≡ some url)
          × (get_segment_data url ≡ none)
          × (c ≡ download_failed url))

  abbrev pub found : Bool → Received → List Session → Verified E
  found equal u l = record { choice = chosen u; is_equal = equal; to_suspend = l }

  -- The loop ended at a result, after others that all differ.
  pub record Stopped (hash : H) (i : ℕ) (acc : List Session) (l : List Received) (r : Verified E)
      : Type 0 where
    pub before : List Received
    pub at : Received
    pub after : List Received
    pub split : l ≡ before ++ (at ∷ after)
    pub differ : AllDiffer get_segment_data compare_hashes hash i before
    pub outcome :
        (Compares get_segment_data compare_hashes hash i true at
          × (r ≡ found true at (acc ++ sessions_of before)))
        ⊎ ((c : Choice E) × IsUnreadable i at c × (r ≡ unverified c))

  abbrev pub IsVerified : H → ℕ → Received → List Session → List Received → Verified E → Type 0
  IsVerified hash i trusted acc l r =
      (AllDiffer get_segment_data compare_hashes hash i l
        × (r ≡ found false trusted (acc ++ sessions_of l)))
      ⊎ Stopped hash i acc l r

  later-Stopped :
      (hash : H) (i : ℕ) (acc : List Session) (u : Received) (l : List Received) (r : Verified E)
      → Compares get_segment_data compare_hashes hash i false u
      → Stopped hash i (acc ++ u.session ∷ []) l r
      → Stopped hash i acc (u ∷ l) r
  later-Stopped hash i acc u l r d p =
      let longer = append_assoc acc (u.session ∷ []) (sessions_of p.before) in
      record {
        before = u ∷ p.before;
        at = p.at;
        after = p.after;
        split = ap (λ m. u ∷ m) p.split;
        differ = (d, p.differ);
        outcome = elim p.outcome [
          | inl (equal, e) ↦ inl (equal, e ∙ ap (λ m. found true p.at m) longer)
          | inr failure ↦ inr failure
        ];
      }

  -- A result that ends the loop at once.
  here-Stopped :
      (hash : H) (i : ℕ) (acc : List Session) (u : Received) (l : List Received) (r : Verified E)
      → (Compares get_segment_data compare_hashes hash i true u × (r ≡ found true u acc))
        ⊎ ((c : Choice E) × IsUnreadable i u c × (r ≡ unverified c))
      → Stopped hash i acc (u ∷ l) r
  here-Stopped hash i acc u l r outcome = record {
    before = [];
    at = u;
    after = l;
    split = refl;
    differ = tt;
    outcome = elim outcome [
      | inl (equal, e) ↦ inl (equal, e ∙ ap (λ m. found true u m) (sym (append-nil acc)))
      | inr failure ↦ inr failure
    ];
  }

  later_cases :
      (hash : H) (i : ℕ) (trusted : Received) (acc : List Session) (u : Received)
      (l : List Received) (r rest : Verified E)
      → r ≡ rest
      → Compares get_segment_data compare_hashes hash i false u
      → IsVerified hash i trusted (acc ++ u.session ∷ []) l rest
      → IsVerified hash i trusted acc (u ∷ l) r
  later_cases hash i trusted acc u l r rest e d (inl (differ, e')) = inl (
    (d, differ),
    e ∙ e' ∙ ap (found false trusted) (append_assoc acc (u.session ∷ []) (sessions_of l)),
  )
  later_cases hash i trusted acc u l r rest e d (inr stopped) =
      inr (later-Stopped hash i acc u l r d (subst (Stopped hash i _ l) (sym e) stopped))

  verify_untrusted-IsVerified :
      (hash : H) (i : ℕ) (trusted : Received) (acc : List Session) (l : List Received)
      → IsVerified hash i trusted acc l
          (verify_untrusted get_segment_data compare_hashes hash i trusted acc l)
  unfolding verify_untrusted
  verify_untrusted-IsVerified hash i trusted acc [] =
      inl (tt, ap (λ m. found false trusted m) (sym (append-nil acc)))
  verify_untrusted-IsVerified hash i trusted acc (u ∷ l) =
      elim (Option-cases (get_elem? u.segments i)) [
        | inl short ↦ inr (
            here-Stopped hash i acc u l _
              (inr (panicked, inl (short, refl), rw (verify_untrusted, short) refl)))
        | inr (url, listed) ↦ elim (Option-cases (get_segment_data url)) [
          | inl failed ↦ inr (
              here-Stopped hash i acc u l _ (
                inr (
                  download_failed url,
                  inr (url, listed, failed, refl),
                  rw (verify_untrusted, listed, failed) refl,
                )))
          | inr (other, downloaded) ↦ elim (Bool-cases (compare_hashes hash other)) [
            | inl equal ↦ inr (
                here-Stopped hash i acc u l _ (
                  inl (
                    record {
                      url = url;
                      other = other;
                      listed = listed;
                      downloaded = downloaded;
                      compared = equal;
                    },
                    rw (verify_untrusted, listed, downloaded, equal) refl,
                  )))
            | inr differs ↦
                let d : Compares get_segment_data compare_hashes hash i false u = record {
                  url = url;
                  other = other;
                  listed = listed;
                  downloaded = downloaded;
                  compared = differs;
                } in
                let rest =
                  verify_untrusted get_segment_data compare_hashes hash i trusted
                    (acc ++ u.session ∷ []) l in
                let goes : verify_untrusted get_segment_data compare_hashes hash i trusted acc
                      (u ∷ l)
                    ≡ rest =
                  rw (verify_untrusted, listed, downloaded, differs) refl in
                later_cases hash i trusted acc u l _ rest goes d
                  (verify_untrusted-IsVerified hash i trusted (acc ++ u.session ∷ []) l)
          ]
        ]
      ]

  -- If the trusted hash is read, the loop of `chooseResults` ends in one of three ways. All untrusted
  -- hashes are read and differ: the trusted result is chosen, as one that is not verified. Or the
  -- hashes before an untrusted result differ, and its own is equal: it is chosen as the verified one,
  -- and the sessions to suspend are exactly those of the results before it. Or the hash of a result
  -- cannot be read before an equal one is found: no result is chosen and no session is to be
  -- suspended; too few segments are a panic then, and a failed download is an error.
  pub check_results-IsVerified :
      (draw : ℕ → ℕ) (trusted : Received) (l : List Received) (url : String) (hash : H)
      → get_elem? trusted.segments (draw (length trusted.segments)) ≡ some url
      → get_segment_data url ≡ some hash
      → IsVerified hash
          (draw (length trusted.segments))
          trusted
          []
          l
          (check_results get_segment_data compare_hashes draw trusted l)
  unfolding check_results verify_untrusted
  check_results-IsVerified draw trusted l url hash listed downloaded =
      let i = draw (length trusted.segments) in
      let r = verify_untrusted get_segment_data compare_hashes hash i trusted [] l in
      let e : check_results get_segment_data compare_hashes draw trusted l ≡ r =
        rw (check_results, listed, downloaded) refl in
      subst (IsVerified hash i trusted [] l) (sym e)
        (verify_untrusted-IsVerified hash i trusted [] l)
