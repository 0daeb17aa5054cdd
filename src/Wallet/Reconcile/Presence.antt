-- ===== src/Wallet/Reconcile/Presence.antt =====
-- What `txids_present_in_graph` finds.
use test_app_pkcs.Prelude.{
  ℕ, ◌≡◌, refl, Bool, true, false, List, [], ◌∷◌, arith, any, ◌==◌, ◌&&◌, ◌||◌, ◌∙◌, sym, ap,
  Bool-cases, inl, inr,
}
use test_app_pkcs.Wallet.Reconcile.{
  contains, insert, Graphs, insert_wanted, insert_all, txids_present_in_graph,
}

abbrev pub in_graph : Graphs → ℕ → Bool
in_graph g t = any (λ vw. contains vw t) g.version_wallets || contains g.inner t

insert-contains : (t u : ℕ) (set : List ℕ) → contains (insert t set) u ≡ (t == u || contains set u)
unfolding insert contains any
insert-contains t u set = elim (Bool-cases (contains set t)) [
  | inl e ↦ elim (Bool-cases (t == u)) [
    | inl same ↦ let q : t ≡ u = ground arith in rw (e, same) (ap (contains set) (sym q) ∙ e)
    | inr other ↦ rw (e, other) refl
  ]
  | inr e ↦ rw e refl
]

insert_wanted-contains :
    (wanted txs present : List ℕ) (u : ℕ)
    → contains (insert_wanted wanted txs present) u
      ≡ (contains present u || (contains wanted u && contains txs u))
unfolding insert_wanted contains any
insert_wanted-contains wanted [] present u = ground arith
insert_wanted-contains wanted (t ∷ txs) present u = elim (Bool-cases (contains wanted t)) [
  | inl e ↦ elim (Bool-cases (t == u)) [
    | inl same ↦
        let q : t ≡ u = ground arith in
        let w : contains wanted u ≡ true = ap (contains wanted) (sym q) ∙ e in
        rw
          (
            e,
            insert_wanted-contains wanted txs (insert t present) u,
            insert-contains t u present,
            same,
            w,
          )
          (ground arith)
    | inr other ↦
        rw
          (
            e,
            insert_wanted-contains wanted txs (insert t present) u,
            insert-contains t u present,
            other,
          )
          refl
  ]
  | inr e ↦ elim (Bool-cases (t == u)) [
    | inl same ↦
        let q : t ≡ u = ground arith in
        let w : contains wanted u ≡ false = ap (contains wanted) (sym q) ∙ e in
        rw (e, insert_wanted-contains wanted txs present u, w) refl
    | inr other ↦ rw (e, insert_wanted-contains wanted txs present u, other) refl
  ]
]

insert_all-contains :
    (wanted : List ℕ) (vws : List (List ℕ)) (present : List ℕ) (u : ℕ)
    → contains (insert_all wanted vws present) u
      ≡ (contains present u || (contains wanted u && any (λ vw. contains vw u) vws))
unfolding insert_all any
insert_all-contains wanted [] present u = ground arith
insert_all-contains wanted (vw ∷ vws) present u =
    rw
      (
        insert_all-contains wanted vws (insert_wanted wanted vw present) u,
        insert_wanted-contains wanted vw present u,
      )
      (ground arith)

contains-nil : (u : ℕ) → contains [] u ≡ false
unfolding contains any
contains-nil u = refl

-- A txid is found present exactly if it is wanted and some version wallet or `inner` has it.
pub txids_present_in_graph_lem :
    (wanted : List ℕ) (g : Graphs) (u : ℕ)
    → contains (txids_present_in_graph wanted g) u ≡ (contains wanted u && in_graph g u)
unfolding txids_present_in_graph
txids_present_in_graph_lem wanted g u =
    rw
      (
        insert_wanted-contains wanted g.inner (insert_all wanted g.version_wallets []) u,
        insert_all-contains wanted g.version_wallets [] u,
        contains-nil u,
      )
      (ground arith)
