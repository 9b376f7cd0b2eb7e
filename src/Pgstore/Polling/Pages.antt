-- ===== src/Pgstore/Polling/Pages.antt =====
-- The pages that StreamAll of es/pgstore/eventstore.go reads, and the loop over one of them.
use go_es_light.Base.{
  ℕ, zero, suc, ◌<◌, ◌≤◌, ◌≡◌, refl, ap, sym, ◌∙◌, true, none, List, [], ◌∷◌, ◌++◌, append-nil,
  append_assoc, take, filter, ltb, ok, arith, Bool, Option, some,
}
use go_es_light.Event.{DomainEvent}
use go_es_light.Pgstore.Polling.{Fetch, page_size, Reader, sent, deliver}

-- WHERE global_id > $1
abbrev pub after : ℕ → List DomainEvent → List DomainEvent
after last = filter (λ e. ltb last e.global_id)

-- The page of a log: WHERE global_id > $1 ORDER BY global_id ASC LIMIT 500.
abbrev pub page : List DomainEvent → Fetch
page log last = ok (take page_size (after last log))

-- The ids climb, all above n.
abbrev pub Ascending : ℕ → List DomainEvent → Type 0
Ascending n [] = Unit
Ascending n (e ∷ es) = (n < e.global_id) × Ascending e.global_id es

abbrev pub last_of : ℕ → List DomainEvent → ℕ
last_of n [] = n
last_of n (e ∷ es) = last_of e.global_id es

pub last_of-append :
    (n : ℕ) (xs ys : List DomainEvent) → last_of n (xs ++ ys) ≡ last_of (last_of n xs) ys
last_of-append n [] ys = refl
last_of-append n (e ∷ xs) ys = last_of-append e.global_id xs ys

le-last_of : (n : ℕ) (es : List DomainEvent) → Ascending n es → n ≤ last_of n es
le-last_of n [] h = omega arith
le-last_of n (e ∷ es) (h, a) = omega (arith, le-last_of e.global_id es a)

Ascending-left : (n : ℕ) (xs ys : List DomainEvent) → Ascending n (xs ++ ys) → Ascending n xs
Ascending-left n [] ys h = tt
Ascending-left n (e ∷ xs) ys (h, a) = (h, Ascending-left e.global_id xs ys a)

Ascending-right :
    (n : ℕ) (xs ys : List DomainEvent) → Ascending n (xs ++ ys) → Ascending (last_of n xs) ys
Ascending-right n [] ys h = h
Ascending-right n (e ∷ xs) ys (h, a) = Ascending-right e.global_id xs ys a

after-all : (m n : ℕ) (es : List DomainEvent) → m ≤ n → Ascending n es → after m es ≡ es
after-all m n [] le h = refl
after-all m n (e ∷ es) le (h, a) = ground (arith, after-all m e.global_id es)

-- Behind the last id of a beginning of an ascending list comes the rest.
pub after-last_of :
    (n : ℕ) (xs ys : List DomainEvent)
    → Ascending n (xs ++ ys)
    → after (last_of n xs) (xs ++ ys) ≡ ys
after-last_of n [] ys h = after-all n n ys (omega arith) h
after-last_of n (e ∷ xs) ys (h, a) =
    let le = le-last_of e.global_id xs (Ascending-left e.global_id xs ys a) in
    ground (arith, after-last_of e.global_id xs ys)

after-after : (m n : ℕ) (es : List DomainEvent) → m ≤ n → after n (after m es) ≡ after n es
after-after m n [] le = refl
after-after m n (e ∷ es) le = ground (arith, after-after m n es)

-- What the loop over a page has done: a beginning of the page was sent, all of it if it came to its end.
abbrev pub Delivered : List DomainEvent → Reader → Bool × Reader → Type 0
Delivered es r (b, r') =
    (xs : List DomainEvent) × (ys : List DomainEvent) × (es ≡ xs ++ ys)
    × (r'.received ≡ r.received ++ xs)
    × (r'.last_id ≡ last_of r.last_id xs)
    × (r'.asked ≡ r.asked)
    × (b ≡ true → ys ≡ [])

Delivered-cons :
    (e : DomainEvent) (es : List DomainEvent) (left : Option ℕ) (r : Reader) (p : Bool × Reader)
    → Delivered es (sent e left r) p
    → Delivered (e ∷ es) r p
Delivered-cons e es left r (b, r') (xs, ys, split, got, last, same, whole) =
    (e ∷ xs, ys, ap (◌∷◌ e) split, got ∙ append_assoc r.received (e ∷ []) xs, last, same, whole)

pub deliver-Delivered :
    (es : List DomainEvent) (left : Option ℕ) (r : Reader) → Delivered es r (deliver es left r)
unfolding deliver
deliver-Delivered [] left r = ([], [], refl, sym (append-nil r.received), refl, refl, λ h. refl)
deliver-Delivered (e ∷ es) none r =
    Delivered-cons e es none r (deliver es none (sent e none r))
      (deliver-Delivered es none (sent e none r))
deliver-Delivered (e ∷ es) (some zero) r =
    ([], e ∷ es, refl, sym (append-nil r.received), refl, refl, λ h. cc)
deliver-Delivered (e ∷ es) (some (suc n)) r =
    Delivered-cons e es (some n) r (deliver es (some n) (sent e (some n) r))
      (deliver-Delivered es (some n) (sent e (some n) r))
