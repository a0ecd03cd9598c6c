-- ===== src/Configs/Loading.antt =====
-- What `LoadNodeInfo` of pkg/configs/configs.go does when it is called again.
use tcp_gateway.Prelude.{ℕ, ◌≡◌, refl, sym, ap, subst, ◌∙◌, none, inl, inr, arith}
use tcp_gateway.Text.{Text}
use tcp_gateway.Configs.{
  Version, EntryConfig, Fetch, Metadata, M, ◌>>=◌, pure, NodeMetadata, fill, Configs, get,
  read_metadata, load_node_info, public_ip_url, local_ip_url, instance_name_url, instance_id_url,
}
use tcp_gateway.Configs.Cache.{
  >>=-known, >>=-inl, ⊎-cases, inl_inj, Known, get-Known, Known-get, Known-get_other, AllKnown,
}

-- What `read_metadata` goes on with behind its first, second and third request.
module _ (answer : ℕ → Text → Fetch) where
  abbrev behind_name : Text → Text → Text → M NodeMetadata
  behind_name p l m = get answer instance_id_url >>= λ i.
      pure (record { public_ip = p; local_ip = l; instance_name = m; instance_id = i })

  abbrev behind_local : Text → Text → M NodeMetadata
  behind_local p l = get answer instance_name_url >>= behind_name p l

  abbrev behind_public : Text → M NodeMetadata
  behind_public p = get answer local_ip_url >>= behind_local p

  read_metadata-eq :
      (s : Metadata) → read_metadata answer s ≡ (get answer public_ip_url >>= behind_public) s
  unfolding read_metadata
  read_metadata-eq s = refl

  AllKnown-read_metadata :
      (n : NodeMetadata) (s : Metadata) → AllKnown n s → read_metadata answer s ≡ (s, inl n)
  AllKnown-read_metadata n s (p, l, m, i) =
      read_metadata-eq s
      ∙ >>=-known (get answer public_ip_url) behind_public
          (get-Known answer public_ip_url n.public_ip s p)
      ∙ >>=-known (get answer local_ip_url) (behind_local n.public_ip)
          (get-Known answer local_ip_url n.local_ip s l)
      ∙ >>=-known (get answer instance_name_url) (behind_name n.public_ip n.local_ip)
          (get-Known answer instance_name_url n.instance_name s m)
      ∙ >>=-known (get answer instance_id_url)
          (λ i'. pure (record {
            public_ip = n.public_ip;
            local_ip = n.local_ip;
            instance_name = n.instance_name;
            instance_id = i';
          }))
          (get-Known answer instance_id_url n.instance_id s i)

  -- Four requests that have answers leave the four values known.
  AllKnown-get :
      (p l m i : Text) (s s₁ s₂ s₃ : Metadata)
      → s₁ ≡ (get answer public_ip_url s).0
      → s₂ ≡ (get answer local_ip_url s₁).0
      → s₃ ≡ (get answer instance_name_url s₂).0
      → (get answer public_ip_url s).1 ≡ inl p
      → (get answer local_ip_url s₁).1 ≡ inl l
      → (get answer instance_name_url s₂).1 ≡ inl m
      → (get answer instance_id_url s₃).1 ≡ inl i
      → AllKnown
          (record { public_ip = p; local_ip = l; instance_name = m; instance_id = i })
          (get answer instance_id_url s₃).0
  AllKnown-get p l m i s s₁ s₂ s₃ d₁ d₂ d₃ e₁ e₂ e₃ e₄ =
      let at₁ : Known public_ip_url p s₁ =
        subst (Known public_ip_url p) (sym d₁) (Known-get answer public_ip_url p s e₁) in
      let at₂ : Known local_ip_url l s₂ =
        subst (Known local_ip_url l) (sym d₂) (Known-get answer local_ip_url l s₁ e₂) in
      let at₃ : Known instance_name_url m s₃ =
        subst (Known instance_name_url m) (sym d₃) (Known-get answer instance_name_url m s₂ e₃) in
      let keep₂ = λ (u v : Text) (k : Known u v s₁).
        subst (Known u v) (sym d₂) (Known-get_other answer local_ip_url u v s₁ k) in
      let keep₃ = λ (u v : Text) (k : Known u v s₂).
        subst (Known u v) (sym d₃) (Known-get_other answer instance_name_url u v s₂ k) in
      let keep₄ =
        λ (u v : Text) (k : Known u v s₃). Known-get_other answer instance_id_url u v s₃ k in
      (
        keep₄ public_ip_url p (keep₃ public_ip_url p (keep₂ public_ip_url p at₁)),
        keep₄ local_ip_url l (keep₃ local_ip_url l at₂),
        keep₄ instance_name_url m at₃,
        Known-get answer instance_id_url i s₃ e₄,
      )

  read_metadata-AllKnown :
      (n : NodeMetadata) (s : Metadata)
      → (read_metadata answer s).1 ≡ inl n
      → AllKnown n (read_metadata answer s).0
  read_metadata-AllKnown n s h =
      let (p, e₁, q₁) =
        >>=-inl (get answer public_ip_url) behind_public s n (rw (read_metadata-eq s) at h) in
      let s₁ = (get answer public_ip_url s).0 in
      let (l, e₂, q₂) =
        >>=-inl (get answer local_ip_url) (behind_local p) s₁ n
          (ap (λ x. x.1) (sym q₁) ∙ (rw (read_metadata-eq s) at h)) in
      let s₂ = (get answer local_ip_url s₁).0 in
      let (m, e₃, q₃) =
        >>=-inl (get answer instance_name_url) (behind_name p l) s₂ n
          (ap (λ x. x.1) (sym (q₁ ∙ q₂)) ∙ (rw (read_metadata-eq s) at h)) in
      let s₃ = (get answer instance_name_url s₂).0 in
      let (i, e₄, q₄) =
        >>=-inl (get answer instance_id_url)
          (λ i'. pure (record { public_ip = p; local_ip = l; instance_name = m; instance_id = i' }))
          s₃ n (ap (λ x. x.1) (sym (q₁ ∙ q₂ ∙ q₃)) ∙ (rw (read_metadata-eq s) at h)) in
      let whole = read_metadata-eq s ∙ q₁ ∙ q₂ ∙ q₃ ∙ q₄ in
      let same_n : record { public_ip = p; local_ip = l; instance_name = m; instance_id = i } ≡ n =
        inl_inj _ n (sym (ap (λ x. x.1) whole) ∙ h) in
      subst (λ x. AllKnown x (read_metadata answer s).0) same_n
        (subst (AllKnown _) (sym (ap (λ x. x.0) whole))
          (AllKnown-get p l m i s s₁ s₂ s₃ refl refl refl e₁ e₂ e₃ e₄))

load_node_info_known :
    (answer : ℕ → Text → Fetch) (v : Version) (n : NodeMetadata) (e : EntryConfig) (s : Metadata)
    → read_metadata answer s ≡ (s, inl n)
    → load_node_info answer v (record { entry = fill v n e; metadata = s })
      ≡ (record { entry = fill v n e; metadata = s }, none)
unfolding load_node_info fill
load_node_info_known answer v n e s k =
    rw (ap (λ r. r.1) k, load_node_info)
      (ap (λ r. (record { entry = fill v n e; metadata = r.0 }, none)) k)

-- Where `LoadNodeInfo` has filled the entry in, a second call makes no request, whatever would be
-- answered, returns nil, and leaves the entry and the cache as they are.
pub load_node_info-load_node_info :
    (answer answer' : ℕ → Text → Fetch) (v : Version) (c c' : Configs)
    → load_node_info answer v c ≡ (c', none)
    → load_node_info answer' v c' ≡ (c', none)
unfolding load_node_info fill
load_node_info-load_node_info answer answer' v c c' h =
    elim (⊎-cases (read_metadata answer c.metadata).1) [
      | inr (e, x) ↦ absurd (ground (arith, (rw (x, load_node_info) at h)))
      | inl (n, x) ↦
          let k =
            AllKnown-read_metadata answer' n (read_metadata answer c.metadata).0
              (read_metadata-AllKnown answer n c.metadata x) in
          let d : Configs = record {
            entry = fill v n c.entry;
            metadata = (read_metadata answer c.metadata).0;
          } in
          let e : d ≡ c' = ap (λ r. r.0) (rw (x, load_node_info) at h) in
          subst (λ z. load_node_info answer' v z ≡ (z, none)) e
            (load_node_info_known answer' v n c.entry _ k)
    ]
