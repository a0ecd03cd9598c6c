-- ===== src/Alerts/Suppression.antt =====
-- How often pkg/feishu/feishu.go posts an alert.
use tcp_gateway.Prelude.{
  ℕ, zero, suc, ◌++◌, ◌+◌, ◌≤◌, ◌<◌, ◌≡◌, refl, sym, subst, true, false, ◌⊎◌, inl, inr, Bool-cases,
  List, [], ◌∷◌, length, All, arith, ltb,
}
use tcp_gateway.Text.{Text, same, same_iff}
use tcp_gateway.Alerts.{Request, Service, Chat, look, add_and_post, request}
use tcp_gateway.Alerts.Goroutines.{
  Call, Post, oldest, IsApart, IsSpaced, Recent, Started, Goroutines, start, Event, looking, adding,
  goes_on, ignored, resume, perform, run, Keeps,
}

module _ {C : Type 0} (service : Service C) (empty : C) (size : C → ℕ)
    (law : Keeps service empty size) where
  -- Each post is found in the cache for its time, and what is found there was posted.
  record Inv (c : Chat C) : Type 0 where
    counted : size c.cache ≤ length c.posted
    present :
        All
          (λ (p : Post). (now : ℕ) → now < p.0 + 30 → service.held c.cache now p.1 ≡ true)
          c.posted
    covered : (now : ℕ) (k : Text) → service.held c.cache now k ≡ true → Recent now k c.posted

  All-map : {P Q : Post → Type 0} (l : List Post) → ((p : Post) → P p → Q p) → All P l → All Q l
  All-map [] f h = tt
  All-map (p ∷ l) f h = (f p h.0, All-map l f h.1)

  apart :
      (now : ℕ) (key : Text) (c : Chat C)
      → service.held c.cache now key ≡ false
      → (p : Post) → ((now' : ℕ) → now' < p.0 + 30 → service.held c.cache now' p.1 ≡ true)
      → IsApart now key p
  apart now key c h (t, k, r) f = elim (Bool-cases (same k key)) [
    | inl e ↦ inr (elim (Bool-cases (ltb now (t + 30))) [
      | inl l ↦ absurd (ground (arith, f now (ground arith), same_iff k key))
      | inr l ↦ ground arith
    ])
    | inr e ↦ inl (λ x. ground (arith, same_iff k key))
  ]

  post-Inv :
      (now : ℕ) (key : Text) (q : Request) (c : Chat C)
      → length c.posted < 30000
      → Inv c
      → Inv (record { cache = service.add c.cache now key; posted = (now, key, q) ∷ c.posted })
  post-Inv now key q c small v = record {
    counted = omega (arith, law.size-add c.cache now key, v.counted);
    present = (
      λ now' l. law.found c.cache now now' key l,
      All-map c.posted
          (λ p f now' l.
            law.kept c.cache now now' key p.1 (omega (arith, v.counted, small)) (f now' l))
          v.present,
    );
    covered = λ now' k e. elim (law.only c.cache now now' key k e) [
      | inl f ↦ inr (v.covered now' k f)
      | inr d ↦ inl d
    ];
  }

  oldest_all : (l : List Post) → oldest (length l) l ≡ l
  oldest_all [] = refl
  oldest_all (p ∷ l) = ground arith

  oldest_more : (n : ℕ) (p : Post) (l : List Post) → n ≤ length l → oldest n (p ∷ l) ≡ oldest n l
  oldest_more n p l h = ground arith

  -- What is known of a goroutine that is behind its Get.
  abbrev Awaits : List Post → Started → Type 0
  Awaits l b = (b.seen ≤ length l) × All (IsApart b.call.now b.call.key) (oldest b.seen l)

  abbrev AllAwait : List Post → List Started → Type 0
  AllAwait l [] = Unit
  AllAwait l (b ∷ bs) = Awaits l b × AllAwait l bs

  AllAwait-later :
      (p : Post) (l : List Post) (bs : List Started) → AllAwait l bs → AllAwait (p ∷ l) bs
  AllAwait-later p l [] h = tt
  AllAwait-later p l (b ∷ bs) ((k, a), h) = (
    (
      omega (arith, k),
      subst (All (IsApart b.call.now b.call.key)) (sym (oldest_more b.seen p l k)) a,
    ),
    AllAwait-later p l bs h,
  )

  AllAwait-append :
      (l : List Post) (bs ds : List Started) → AllAwait l bs → AllAwait l ds → AllAwait l (bs ++ ds)
  AllAwait-append l [] ds h k = k
  AllAwait-append l (b ∷ bs) ds h k = (h.0, AllAwait-append l bs ds h.1 k)

  record IsSound (s : Goroutines C) : Type 0 where
    cached : Inv s.chat
    spaced : IsSpaced s.chat.posted s.looks
    waiting : AllAwait s.chat.posted s.started

  resume-IsSound :
      (now k : ℕ) (before bs : List Started) (s : Goroutines C)
      → length s.chat.posted < 30000
      → IsSound s
      → AllAwait s.chat.posted before
      → AllAwait s.chat.posted bs
      → IsSound (resume service now k before bs s)
        × (length (resume service now k before bs s).chat.posted ≤ length s.chat.posted + 1)
  unfolding add_and_post
  resume-IsSound now k before [] s small v h g = (v, omega arith)
  resume-IsSound now (suc k) before (b ∷ bs) s small v h g =
      resume-IsSound now k (b ∷ before) bs s small v (g.0, h) g.1
  resume-IsSound now zero before (b ∷ bs) s small v h (a, g) = (
    record {
      cached =
          post-Inv now b.call.key (request service now b.call.text b.call.secret) s.chat small
            v.cached;
      spaced = (a.0, a.1, v.spaced);
      waiting =
          AllAwait-later _ s.chat.posted (before ++ bs)
            (AllAwait-append s.chat.posted before bs h g);
    },
    omega arith,
  )

  -- A call that is not ignored goes on, or its key is in the cache.
  look_cases :
      (a : Call) (c : Chat C)
      → ((goes_on service a c ≡ true) × (service.held c.cache a.now a.key ≡ false))
        ⊎ ((goes_on service a c ≡ false)
            × ((ignored service a ≡ true) ⊎ (service.held c.cache a.now a.key ≡ true)))
  unfolding look
  look_cases a c = elim (Bool-cases (ignored service a)) [
    | inl e ↦ inr (rw e refl, inl e)
    | inr e ↦ elim (Bool-cases (service.held c.cache a.now a.key)) [
      | inl f ↦ inr (rw (e, f) refl, inr f)
      | inr f ↦ inl (rw (e, f) refl, f)
    ]
  ]

  perform-IsSound :
      (e : Event) (s : Goroutines C)
      → length s.chat.posted < 30000
      → IsSound s
      → IsSound (perform service e s)
        × (length (perform service e s).chat.posted ≤ length s.chat.posted + 1)
  perform-IsSound (adding k now) s small v =
      resume-IsSound now k [] s.started s small v tt v.waiting
  perform-IsSound (looking a) s small v = elim (look_cases a s.chat) [
    | inr (e, w) ↦ rw e (v, omega arith)
    | inl (e, f) ↦ rw e (
      record {
        cached = v.cached;
        spaced = v.spaced;
        waiting = (
          (
            omega arith,
            subst (All (IsApart a.now a.key)) (sym (oldest_all s.chat.posted))
                (All-map s.chat.posted (apart a.now a.key s.chat f) v.cached.present),
          ),
          v.waiting,
        );
      },
      omega arith,
    )
  ]

  run-IsSound :
      (es : List Event) (s : Goroutines C)
      → length es + length s.chat.posted ≤ 30000
      → IsSound s
      → IsSound (run service es s)
  run-IsSound [] s h v = v
  run-IsSound (e ∷ es) s h v =
      let (w, k) = perform-IsSound e s (omega (arith, h)) v in
      run-IsSound es (perform service e s) (omega (arith, k, h)) w

  start-IsSound : IsSound (start empty)
  start-IsSound = record {
    cached = record {
      counted = omega (arith, law.size-empty);
      present = tt;
      covered = λ now k e. absurd (ground (arith, law.nothing now k));
    };
    spaced = tt;
    waiting = tt;
  }

  -- With a cache that keeps an entry for 30 seconds and pushes out none while it is not full: in every
  -- order of up to 30000 steps of goroutines that call Alert, a post is apart from each post that came
  -- before the Get of its call, by its key or by 30 seconds up to that Get.
  -- A further call that is not ignored for a blank key or
  -- text, or for no URL or secret, goes on to post, or its key was posted in the 30 seconds before.
  pub run-IsSpaced :
      (es : List Event) (a : Call)
      → length es ≤ 30000
      → ignored service a ≡ false
      → let s = run service es (start empty) in
        IsSpaced s.chat.posted s.looks
        × ((goes_on service a s.chat ≡ true) ⊎ Recent a.now a.key s.chat.posted)
  run-IsSpaced es a h i =
      let s = run service es (start empty) in
      let v = run-IsSound es (start empty) (omega (arith, h)) start-IsSound in
      (
        v.spaced,
        elim (look_cases a s.chat) [
          | inl (e, f) ↦ inl e
          | inr (e, inl x) ↦ absurd (ground (arith, x, i))
          | inr (e, inr f) ↦ inr (v.cached.covered a.now a.key f)
        ],
      )
