-- ===== src/Index/Chains/Changes.antt =====
-- What `set` of a key that is there and `erase` do to the chain that they change.
use zidanedb.Base.{
  ℕ, ◌<◌, ◌≡◌, ◌≢◌, refl, sym, ap, ◌∙◌, List, ◌∷◌, Option, none, some, arith, Bool-cases, inl, inr,
  bytes_eq, ne→==, eq→==,
}
use zidanedb.Stream.{Bytes}
use zidanedb.Index.Read.{IndexEntry}
use zidanedb.Index.Layout.{entry_at, update_at, entry_at-update, KeepsKey}
use zidanedb.Index.Chains.{
  Node, node, Chain, end, link, locate, replace, remove, Chain-below, Chain-update, locate-le,
}

abbrev pub with_db_offset : ℕ → IndexEntry → IndexEntry
with_db_offset d e = record e { db_offset = d }

abbrev pub with_next : ℕ → IndexEntry → IndexEntry
with_next n e = record e { next_entry_offset = n }

module _ (base : ℕ) (es : List IndexEntry) where
  pub entry_at-update_ne :
      (off at : ℕ) (f : IndexEntry → IndexEntry) {e : IndexEntry}
      → KeepsKey f
      → off ≢ at
      → entry_at base off es ≡ some e
      → entry_at base off (update_at base at f es) ≡ some e
  entry_at-update_ne off at f keeps ne h =
      rw (entry_at-update base off at f es keeps, ne→== off at ne) h

  pub entry_at-update_self :
      (off : ℕ) (f : IndexEntry → IndexEntry) {e : IndexEntry}
      → KeepsKey f
      → entry_at base off es ≡ some e
      → entry_at base off (update_at base off f es) ≡ some (f e)
  entry_at-update_self off f keeps h =
      rw (entry_at-update base off off f es keeps, eq→== off off refl, h)

-- What `erase` does to the entries behind the first of a chain: it clears the entry at `o`, and links
-- its predecessor at `p` to the next one.
abbrev pub unlinked : (base : ℕ) (es : List IndexEntry) (o p next : ℕ) → List IndexEntry
unlinked base es o p next =
    update_at base p (with_next next) (update_at base o (with_db_offset 0) es)

abbrev next_of : Option IndexEntry → ℕ
next_of none = 0
next_of (some e) = e.next_entry_offset

module _ {base : ℕ} {es : List IndexEntry} where
  pub Chain-replace :
      {off : ℕ} {ns : List Node} (key : Bytes) (d prev : ℕ)
      → Chain base es off ns
      → (locate key prev ns).0 ≢ 0
      → Chain base
          (update_at base (locate key prev ns).0 (with_db_offset d) es)
          off
          (replace key d ns)
  unfolding locate replace
  Chain-replace key d prev (end z) h = end z
  Chain-replace key d prev (link {off} {e} pos x n lt c) h =
      elim (Bool-cases (bytes_eq key e.key)) [
        | inl hit ↦ rw hit (
            link pos (entry_at-update_self base es off (with_db_offset d) (λ e. refl) x) n lt
              (Chain-update off (with_db_offset d) (λ e. refl) c (Chain-below off c lt)))
        | inr miss ↦ rw miss (
            link pos
              (entry_at-update_ne base es off (locate key off _).0 (with_db_offset d) (λ e. refl)
                (λ same. absurd (omega (arith, same, locate-le key off c (omega arith)))) x)
              n lt (Chain-replace key d off c (rw miss at h)))
      ]

  pub Chain-unlink :
      {next : ℕ} {ns : List Node} (key : Bytes) (off : ℕ) (e x : IndexEntry)
      → Chain base es next ns
      → off ≢ 0
      → entry_at base off es ≡ some e
      → e.next_entry_offset ≡ next
      → next < off
      → (locate key off ns).0 ≢ 0
      → entry_at base (locate key off ns).0 es ≡ some x
      → Chain base
          (unlinked base es (locate key off ns).0 (locate key off ns).1 x.next_entry_offset)
          off
          (node off e ∷ remove key ns)
  unfolding locate remove
  Chain-unlink key off e x (end z) pos h n lt found at = absurd (found refl)
  Chain-unlink key off e x (link {off = next} {next = after} {e = e'} {ns = rest} pos' h' n' lt' c)
        pos h n lt found at =
      elim (Bool-cases (bytes_eq key e'.key)) [
        | inl hit ↦
            let there : entry_at base next es ≡ some x = rw hit at at in
            let bypass : x.next_entry_offset ≡ after = omega (arith, ap next_of (sym there ∙ h')) in
            let cleared = update_at base next (with_db_offset 0) es in
            let kept : Chain base cleared after rest =
              Chain-update next (with_db_offset 0) (λ e. refl) c (Chain-below next c lt') in
            rw hit (
              link pos
                (entry_at-update_self base cleared off (with_next x.next_entry_offset) (λ e. refl)
                  (entry_at-update_ne base es off next (with_db_offset 0) (λ e. refl) (omega arith)
                    h))
                bypass (omega arith)
                (Chain-update off (with_next x.next_entry_offset) (λ e. refl) kept
                  (Chain-below off kept (omega arith))))
        | inr miss ↦
            let o = (locate key next rest).0 in
            let p = (locate key next rest).1 in
            let (o_le, p_le) = locate-le key next c (omega arith) in
            rw miss (
              link pos
                (entry_at-update_ne base (update_at base o (with_db_offset 0) es) off p
                  (with_next x.next_entry_offset) (λ e. refl) (omega arith)
                  (entry_at-update_ne base es off o (with_db_offset 0) (λ e. refl) (omega arith) h))
                n lt
                (Chain-unlink key next e' x c pos' h' n' lt' (rw miss at found) (rw miss at at)))
      ]
