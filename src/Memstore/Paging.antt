-- ===== src/Memstore/Paging.antt =====
-- Store.FetchAfter of es/memstore/eventstore.go: what a page holds, and that pages join up.
use go_es_light.Base.{
  ℕ, Option, zero, suc, ◌+◌, ◌<◌, ◌≤◌, ◌≡◌, refl, true, false, Bool, ◌&&◌, not, List, [], ◌∷◌, ◌++◌,
  filter, filter-All, All, All-imp, All-filter, All-filter_of, take, drop, leb, length, take-length,
  take-append-drop, ok-injective, arith, ap, ◌∙◌, sym, ok, Bool-cases, inl, inr,
}
use go_es_light.Int.{ℤ, pos, negsuc}
use go_es_light.Event.{DomainEvent}
use go_es_light.StoreConfig.{StoreOption, resolve_store_config, is_visible}
use go_es_light.Memstore.{Store, fetch, fetch_after, reached}
use go_es_light.Memstore.Invariant.{IsValid, Numbered}

abbrev pub is_after : ℕ → DomainEvent → Bool
is_after last e = not (leb e.global_id last)

-- The events that FetchAfter is asked for.
abbrev pub is_wanted : Option ℕ → ℕ → DomainEvent → Bool
is_wanted tenant last e = is_after last e && is_visible tenant e

-- limit > 0 bounds the page, and any other limit does not.
abbrev pub cut : ℤ → List DomainEvent → List DomainEvent
cut (pos zero) es = es
cut (pos (suc l)) es = take (suc l) es
cut (negsuc l) es = es

fetch_unlimited :
    (tenant : Option ℕ) (last : ℕ) (limit : ℤ) (n : ℕ) (es : List DomainEvent)
    → ((k : ℕ) → reached limit k ≡ false)
    → fetch tenant last limit n es ≡ filter (is_wanted tenant last) es
unfolding fetch
fetch_unlimited tenant last limit n [] h = refl
fetch_unlimited tenant last limit n (e ∷ es) h = ground (
  arith,
  h (n + 1),
  fetch_unlimited tenant last limit n es h,
  fetch_unlimited tenant last limit (n + 1) es h,
)

fetch_limited :
    (tenant : Option ℕ) (last m l n : ℕ) (es : List DomainEvent)
    → suc (l + n) ≡ m
    → fetch tenant last (pos m) n es ≡ take (suc l) (filter (is_wanted tenant last) es)
unfolding fetch
fetch_limited tenant last m l n [] h = refl
fetch_limited tenant last m zero n (e ∷ es) h =
    ground (arith, fetch_limited tenant last m zero n es h)
fetch_limited tenant last m (suc l) n (e ∷ es) h =
    let next = fetch_limited tenant last m l (n + 1) es (omega arith) in
    ground (arith, fetch_limited tenant last m (suc l) n es h, next)

fetch-eq-cut :
    (tenant : Option ℕ) (last : ℕ) (limit : ℤ) (es : List DomainEvent)
    → fetch tenant last limit 0 es ≡ cut limit (filter (is_wanted tenant last) es)
fetch-eq-cut tenant last (pos zero) es =
    fetch_unlimited tenant last (pos zero) 0 es (λ k. ground arith)
fetch-eq-cut tenant last (pos (suc l)) es = fetch_limited tenant last (suc l) l 0 es (omega arith)
fetch-eq-cut tenant last (negsuc l) es = fetch_unlimited tenant last (negsuc l) 0 es (λ k. refl)

-- FetchAfter returns the events of the log past the given id that the call may see, in log order:
-- the first `limit` of them, or all of them if the limit is zero or negative.
pub fetch_after-eq-cut :
    (last : ℕ) (limit : ℤ) (opts : List StoreOption) (s : Store)
    → fetch_after last limit opts s
      ≡ ok (cut limit (filter (is_wanted (resolve_store_config opts).tenant_id last) s.all))
unfolding fetch_after
fetch_after-eq-cut last limit opts s =
    ap ok (fetch-eq-cut (resolve_store_config opts).tenant_id last limit s.all)

-- The cursor after a page: the id of its last event.
abbrev pub resume : ℕ → List DomainEvent → ℕ
resume last [] = last
resume last (e ∷ es) = resume e.global_id es

abbrev IsAbove : ℕ → DomainEvent → Type 0
IsAbove n e = n < e.global_id

abbrev Ascending : List DomainEvent → Type 0
Ascending [] = Unit
Ascending (e ∷ es) = All (IsAbove e.global_id) es × Ascending es

Numbered-IsAbove : (n m : ℕ) (es : List DomainEvent) → n ≤ m → Numbered m es → All (IsAbove n) es
Numbered-IsAbove n m [] h num = tt
Numbered-IsAbove n m (e ∷ es) h num =
    (omega arith, Numbered-IsAbove n (m + 1) es (omega arith) num.1)

Numbered-Ascending : (n : ℕ) (es : List DomainEvent) → Numbered n es → Ascending es
Numbered-Ascending n [] num = tt
Numbered-Ascending n (e ∷ es) num = (
  Numbered-IsAbove e.global_id (n + 1) es (omega arith) num.1,
  Numbered-Ascending (n + 1) es num.1,
)

filter-Ascending :
    (p : DomainEvent → Bool) (es : List DomainEvent) → Ascending es → Ascending (filter p es)
filter-Ascending p [] h = tt
filter-Ascending p (e ∷ es) h = elim (Bool-cases (p e)) [
  | inl x ↦ rw x (All-filter_of (IsAbove e.global_id) p es h.0, filter-Ascending p es h.1)
  | inr x ↦ rw x (filter-Ascending p es h.1)
]

le-resume :
    (last k : ℕ) (w : List DomainEvent)
    → All (IsAbove last) w
    → Ascending w
    → last ≤ resume last (take k w)
le-resume last zero w h asc = omega arith
le-resume last (suc k) [] h asc = omega arith
le-resume last (suc k) (e ∷ w) h asc = omega (arith, le-resume e.global_id k w asc.0 asc.1)

after_above :
    (last : ℕ) (w : List DomainEvent) → All (IsAbove last) w → All (λ e. is_after last e ≡ true) w
after_above last w h =
    All-imp (IsAbove last) (λ e. is_after last e ≡ true) w (λ e p. ground arith) h

resume-drop :
    (last k : ℕ) (w : List DomainEvent)
    → All (IsAbove last) w
    → Ascending w
    → filter (is_after (resume last (take k w))) w ≡ drop k w
resume-drop last zero w h asc = filter-All (is_after last) w (after_above last w h)
resume-drop last (suc k) [] h asc = refl
resume-drop last (suc k) (e ∷ w) h asc =
    let cursor = resume e.global_id (take k w) in
    let passed : is_after cursor e ≡ false =
      ground (arith, le-resume e.global_id k w asc.0 asc.1) in
    rw passed (resume-drop e.global_id k w asc.0 asc.1)

cut-eq-take : (limit : ℤ) (w : List DomainEvent) → (k : ℕ) × (cut limit w ≡ take k w)
cut-eq-take (pos zero) w = (length w, sym (take-length w))
cut-eq-take (pos (suc l)) w = (suc l, refl)
cut-eq-take (negsuc l) w = (length w, sym (take-length w))

wanted-IsAbove :
    (tenant : Option ℕ) (last : ℕ) (es : List DomainEvent)
    → All (IsAbove last) (filter (is_wanted tenant last) es)
wanted-IsAbove tenant last es =
    All-imp (λ e. is_wanted tenant last e ≡ true) (IsAbove last) (filter (is_wanted tenant last) es)
      (λ e p. ground arith) (All-filter (is_wanted tenant last) es)

wanted_later :
    (tenant : Option ℕ) (last next : ℕ) (es : List DomainEvent)
    → last ≤ next
    → filter (is_wanted tenant next) es ≡ filter (is_after next) (filter (is_wanted tenant last) es)
wanted_later tenant last next [] h = refl
wanted_later tenant last next (e ∷ es) h = ground (arith, wanted_later tenant last next es h)

pages_join :
    (tenant : Option ℕ) (last k : ℕ) (log : List DomainEvent)
    → Ascending log
    → let w = filter (is_wanted tenant last) log in
      take k w ++ filter (is_wanted tenant (resume last (take k w))) log ≡ w
pages_join tenant last k log asc =
    let w = filter (is_wanted tenant last) log in
    let above = wanted-IsAbove tenant last log in
    let asc' = filter-Ascending (is_wanted tenant last) log asc in
    ap (λ l. take k w ++ l)
      (wanted_later tenant last (resume last (take k w)) log (le-resume last k w above asc')
        ∙ resume-drop last k w above asc')
    ∙ take-append-drop k w

-- From a valid store, a page of any limit, followed by everything past the last id of the page,
-- is exactly what one unlimited fetch returns: no event is lost or read twice between pages.
pub fetch_after-resume :
    (last : ℕ) (limit : ℤ) (opts : List StoreOption) (s : Store) (page rest : List DomainEvent)
    → IsValid s
    → fetch_after last limit opts s ≡ ok page
    → fetch_after (resume last page) (pos 0) opts s ≡ ok rest
    → fetch_after last (pos 0) opts s ≡ ok (page ++ rest)
fetch_after-resume last limit opts s page rest v h h' =
    let tenant = (resolve_store_config opts).tenant_id in
    let w = filter (is_wanted tenant last) s.all in
    let (k, taken) = cut-eq-take limit w in
    let page' : take k w ≡ page =
      sym taken ∙ ok-injective (sym (fetch_after-eq-cut last limit opts s) ∙ h) in
    let rest' : filter (is_wanted tenant (resume last page)) s.all ≡ rest =
      ok-injective (sym (fetch_after-eq-cut (resume last page) (pos 0) opts s) ∙ h') in
    fetch_after-eq-cut last (pos 0) opts s
    ∙ ap ok (
        sym (
          rw (← page', ← rest', ← page')
            (pages_join tenant last k s.all (Numbered-Ascending 0 s.all v.numbered))))
