-- ===== src/Pipe/Filters.antt =====
-- The filters and the functions by id of src/messages/pipe/PipeInterface.cpp.
use sentinet_cpp.Common.{
  ◌≡◌, refl, ap, sym, ◌∙◌, true, false, none, some, List, [], ◌∷◌, ◌++◌, arith,
}
use sentinet_cpp.Common.Maps.{String, find, find-put}
use sentinet_cpp.Control.NetworkPatterns.{s_recv, s_sendmore, s_send}
use sentinet_cpp.Pipe.{
  pub_sub, Proxy, Pipe, returned, add_filter, create_endpoint, create_pub_sub_endpoint,
  call_unless_found, stop, kill, set_filter, convert_all, spin,
}

module _ {F : Type 0} where
  -- Filters set one after the other.
  unfoldable pub set_filters : String → List F → Pipe F → Pipe F
  set_filters id [] pipe = pipe
  set_filters id (f ∷ fs) pipe = set_filters id fs (set_filter id f pipe).0

  append_nil : (fs : List F) → fs ++ [] ≡ fs
  append_nil [] = refl
  append_nil (f ∷ fs) = ap (λ r. f ∷ r) (append_nil fs)

  append_one : (fs gs : List F) (f : F) → (fs ++ (f ∷ [])) ++ gs ≡ fs ++ (f ∷ gs)
  append_one [] gs f = refl
  append_one (x ∷ fs) gs f = ap (λ r. x ∷ r) (append_one fs gs f)

  pub set_filters-find :
      (id : String) (fs : List F) (pipe : Pipe F) (p : Proxy F)
      → find id pipe ≡ some p
      → find id (set_filters id fs pipe) ≡ some (record p { filters = p.filters ++ fs })
  unfolding set_filters set_filter add_filter
  set_filters-find id [] pipe p e =
      e ∙ ap (λ r. some (record p { filters = r })) (sym (append_nil p.filters))
  set_filters-find id (f ∷ fs) pipe p e =
      let next : find id (set_filter id f pipe).0 ≡ some (add_filter f p) =
        ground (arith, e, find-put id (add_filter f p) pipe) in
      set_filters-find id fs (set_filter id f pipe).0 (add_filter f p) next
      ∙ ap (λ r. some (record p { filters = r })) (append_one p.filters fs f)

  abbrev pub created : String → String → Proxy F
  created frontend backend = record {
    endpoint = pub_sub;
    frontend = frontend;
    backend = backend;
    running = true;
    filters = [];
  }

  pub create_pub_sub_endpoint-created :
      (id frontend backend : String) (pipe : Pipe F)
      → find id pipe ≡ none
      → find id (create_pub_sub_endpoint id frontend backend pipe).0
        ≡ some (created frontend backend)
  unfolding create_pub_sub_endpoint create_endpoint
  create_pub_sub_endpoint-created id frontend backend pipe e =
      ground (arith, e, find-put id (created frontend backend) pipe)

  -- Under an id that is not in use a pub-sub proxy with these two addresses is made, which runs and has no
  -- filters. Stopping or killing it by its id
  -- returns false and leaves everything as it is, and so does making it again.
  pub create_pub_sub_endpoint-stop :
      (id frontend backend : String) (pipe : Pipe F)
      → find id pipe ≡ none
      → let made = (create_pub_sub_endpoint id frontend backend pipe).0 in
        let p : Proxy F = record {
          endpoint = pub_sub;
          frontend = frontend;
          backend = backend;
          running = true;
          filters = [];
        } in
        ((create_pub_sub_endpoint id frontend backend pipe).1 ≡ true)
        × (find id made ≡ some p)
        × (stop id made ≡ (made, returned false))
        × (kill id made ≡ (made, returned false))
        × (create_pub_sub_endpoint id backend frontend made ≡ (made, false))
  unfolding create_pub_sub_endpoint create_endpoint stop kill call_unless_found
  create_pub_sub_endpoint-stop id frontend backend pipe e =
      let there = find-put id (created frontend backend) pipe in
      (
        ground (arith, e),
        create_pub_sub_endpoint-created id frontend backend pipe e,
        ground (arith, e, there),
        ground (arith, e, there),
        ground (arith, e, there),
      )

module _ {F : Type 0} (apply : F → String → F × String) where
  -- A message that passes some filters in order.
  unfoldable pub pass : List F → String → String
  pass [] message = message
  pass (f ∷ fs) message = pass fs (apply f message).1

  convert_all-pass : (fs : List F) (m : String) → (convert_all apply fs m).1 ≡ pass fs m
  unfolding convert_all pass
  convert_all-pass [] m = refl
  convert_all-pass (f ∷ fs) m = convert_all-pass fs (apply f m).1

  -- A pub-sub proxy that is made under an id not in use, and given some filters one after the other,
  -- runs, and it sends a message that it receives on with its topic, changed by all of these filters
  -- in the order in which they were set.
  pub set_filters-spin :
      (id frontend backend : String) (fs : List F) (pipe : Pipe F) (topic message : String)
      → find id pipe ≡ none
      → (p : Proxy F) × (find id
            (set_filters id fs (create_pub_sub_endpoint id frontend backend pipe).0)
          ≡ some p)
        × (p.running ≡ true)
        × ((spin apply (some (topic, message)) p).1
            ≡ s_recv topic ∷ s_recv message ∷ s_sendmore topic ∷ s_send (pass fs message) ∷ [])
  unfolding create_pub_sub_endpoint create_endpoint spin
  set_filters-spin id frontend backend fs pipe topic message e =
      let p : Proxy F = record (created frontend backend) { filters = fs } in
      let made = create_pub_sub_endpoint-created id frontend backend pipe e in
      (
        p,
        set_filters-find id fs _ (created frontend backend) made,
        refl,
        ap (λ r. s_recv topic ∷ s_recv message ∷ s_sendmore topic ∷ s_send r ∷ [])
            (convert_all-pass fs message),
      )
