-- ===== src/Agent/Batch/Laws.antt =====
-- Which requests of a batch are served and how the others are refused, and that the responses name
-- the operation that they answer.
use mathlib.Core.Path.{subst, fun_ext}
use mathlib.Core.List.{append_assoc}
use esnet_smartnic_fw.Base.{
  ◌≡◌, refl, sym, ap, ◌∙◌, Bool, true, false, List, [], ◌∷◌, ◌++◌, map, Option, none, some, All,
}
use esnet_smartnic_fw.Agent.Errors.{ErrorCode}
use esnet_smartnic_fw.Agent.Effect.{M, ◌>>=◌, ◌>>◌, map_run, continue, prepend}
use esnet_smartnic_fw.Agent.Device.{State}
use esnet_smartnic_fw.Agent.Messages.{BatchOperation, BatchResponse, batched}
use esnet_smartnic_fw.Agent.Batch.{
  RequestItem, ResponseItem, BatchRequest, Context, with_item, error_resp, batch_get_device_info,
  dispatch, batch,
}
use esnet_smartnic_fw.Agent.Table.{
  batch_clear_table, batch_insert_table_rule, batch_delete_table_rule,
}
use esnet_smartnic_fw.Agent.Stats.{batch_stats, batch_pipeline_stats}
use esnet_smartnic_fw.Agent.Pipeline.{batch_get_pipeline_info}
use esnet_smartnic_fw.Agent.Server.{
  get_server_status, get_server_config, set_server_config, batch_get_server_config,
  batch_set_server_config, batch_get_server_status,
}

-- The operations of the service, by item.
unfoldable pub supports : {D : Type 0} → RequestItem D → BatchOperation → Bool
supports (RequestItem.device_info req) BatchOperation.get = true
supports (RequestItem.pipeline_info req) BatchOperation.get = true
supports (RequestItem.pipeline_stats req) BatchOperation.get = true
supports (RequestItem.pipeline_stats req) BatchOperation.clear = true
supports (RequestItem.table req) BatchOperation.clear = true
supports (RequestItem.table_rule req) BatchOperation.insert = true
supports (RequestItem.table_rule req) BatchOperation.delete = true
supports (RequestItem.stats req) BatchOperation.get = true
supports (RequestItem.stats req) BatchOperation.clear = true
supports RequestItem.server_status BatchOperation.get = true
supports (RequestItem.server_config req) BatchOperation.get = true
supports (RequestItem.server_config req) BatchOperation.set = true
supports item op = false

-- The code of a refusal.
pub refusal : {D : Type 0} → RequestItem D → ErrorCode
refusal RequestItem.not_set = ErrorCode.unknown_batch_request
refusal item = ErrorCode.unknown_batch_op

continue_assoc :
    {S R A B C : Type 0} (o : Option (S × List R × A)) (f : A → M S R B) (g : B → M S R C)
    → continue o (λ a. f a >>= g) ≡ continue (continue o f) g
continue_assoc none f g = refl
continue_assoc (some (s, rs, a)) f g = prepend-continue rs (f a s) g
  where
    prepend-prepend :
        {S R C : Type 0} (rs qs : List R) (o : Option (S × List R × C))
        → prepend rs (prepend qs o) ≡ prepend (rs ++ qs) o
    prepend-prepend rs qs none = refl
    prepend-prepend rs qs (some (s, ps, c)) = ap (λ l. some (s, l, c)) (sym (append_assoc rs qs ps))

    prepend-continue :
        {S R B C : Type 0} (rs : List R) (o : Option (S × List R × B)) (g : B → M S R C)
        → prepend rs (continue o g) ≡ continue (prepend rs o) g
    prepend-continue rs none g = refl
    prepend-continue rs (some (s, qs, b)) g = prepend-prepend rs qs (g b s)

prepend-nil : {S R A : Type 0} (o : Option (S × List R × A)) → prepend [] o ≡ o
prepend-nil none = refl
prepend-nil (some (s, rs, a)) = refl

-- Responses made by `batched op` name `op`.
responses : {S R : Type 0} → Option (S × List R × Unit {0}) → List R
responses none = []
responses (some (s, rs, u)) = rs

abbrev pub Echo : {D : Type 0} → BatchOperation → List (BatchResponse (ResponseItem D)) → Type 0
Echo op rs = All (λ r. r.op ≡ op) rs

module _ {A D : Type 0} (f : A → ResponseItem D) (op : BatchOperation) where
  map-Echo : (qs : List A) → Echo op (map (with_item f) (map (batched op) qs))
  map-Echo [] = tt
  map-Echo (q ∷ qs) = (refl, map-Echo qs)

  echoes :
      {S : Type 0} (o : Option (S × List A × Unit {0})) (s : S)
      (rs : List (BatchResponse (ResponseItem D))) (u : Unit {0})
      → map_run (with_item f) (map_run (batched op) o) ≡ some (s, rs, u)
      → Echo op rs
  unfolding responses
  echoes none s rs u e = absurd cc
  echoes (some (s', qs, v)) s rs u e = subst (Echo op) (ap responses e) (map-Echo qs)

error_resp-Echo :
    {S D : Type 0} (err : ErrorCode) (op : BatchOperation) (s s' : S)
    (rs : List (BatchResponse (ResponseItem D))) (u : Unit {0})
    → error_resp err op s ≡ some (s', rs, u)
    → Echo op rs
unfolding error_resp responses
error_resp-Echo err op s s' rs u e = subst (Echo op) (ap responses e) (refl, tt)

module _ {Handle Mpz Zone Domain Hw D E : Type 0} (c : Context Handle Mpz Zone Domain Hw D E) where
  -- A request whose operation its item does not have is answered by exactly one response, which
  -- says so, names the operation and carries nothing; the state stays as it was.
  pub dispatch-refused :
      (item : RequestItem D) (op : BatchOperation) (s : State Hw)
      → supports item op ≡ false
      → dispatch c item op s
        ≡ some
            (s, record { error_code = refusal item; op = op; item = ResponseItem.not_set } ∷ [], tt)
  unfolding dispatch error_resp supports refusal
  dispatch-refused (RequestItem.device_info req) BatchOperation.get s h = absurd cc
  dispatch-refused (RequestItem.pipeline_info req) BatchOperation.get s h = absurd cc
  dispatch-refused (RequestItem.pipeline_stats req) BatchOperation.get s h = absurd cc
  dispatch-refused (RequestItem.pipeline_stats req) BatchOperation.clear s h = absurd cc
  dispatch-refused (RequestItem.table req) BatchOperation.clear s h = absurd cc
  dispatch-refused (RequestItem.table_rule req) BatchOperation.insert s h = absurd cc
  dispatch-refused (RequestItem.table_rule req) BatchOperation.delete s h = absurd cc
  dispatch-refused (RequestItem.stats req) BatchOperation.get s h = absurd cc
  dispatch-refused (RequestItem.stats req) BatchOperation.clear s h = absurd cc
  dispatch-refused RequestItem.server_status BatchOperation.get s h = absurd cc
  dispatch-refused (RequestItem.server_config req) BatchOperation.get s h = absurd cc
  dispatch-refused (RequestItem.server_config req) BatchOperation.set s h = absurd cc
  dispatch-refused RequestItem.not_set op s h = refl
  dispatch-refused item op s h = refl

  -- A batch of requests does what its first part does and then what its second part does, with the
  -- responses in the same order.
  pub batch-++ :
      (xs ys : List (BatchRequest D)) (s : State Hw)
      → batch c (xs ++ ys) s ≡ (batch c xs >> batch c ys) s
  unfolding batch
  batch-++ [] ys s = sym (prepend-nil (batch c ys s))
  batch-++ (x ∷ xs) ys s =
      ap (continue (dispatch c x.item x.op s)) (fun_ext λ u. fun_ext λ s'. batch-++ xs ys s')
      ∙ continue_assoc (dispatch c x.item x.op s) (λ u. batch c xs) (λ u. batch c ys)

  -- If serving a request ends, then each response to it names the operation of the request, also where
  -- the request is refused.
  pub dispatch-echoes :
      (item : RequestItem D) (op : BatchOperation) (s s' : State Hw)
      (rs : List (BatchResponse (ResponseItem E))) (u : Unit {0})
      → dispatch c item op s ≡ some (s', rs, u)
      → Echo op rs
  unfolding dispatch error_resp batch_get_device_info batch_get_pipeline_info batch_pipeline_stats
      batch_clear_table batch_insert_table_rule batch_delete_table_rule batch_stats
      batch_get_server_status batch_get_server_config batch_set_server_config
  dispatch-echoes (RequestItem.device_info req) BatchOperation.get s s' rs u e =
      echoes _ _ _ s' rs u e
  dispatch-echoes (RequestItem.pipeline_info req) BatchOperation.get s s' rs u e =
      echoes _ _ _ s' rs u e
  dispatch-echoes (RequestItem.pipeline_stats req) BatchOperation.get s s' rs u e =
      echoes _ _ _ s' rs u e
  dispatch-echoes (RequestItem.pipeline_stats req) BatchOperation.clear s s' rs u e =
      echoes _ _ _ s' rs u e
  dispatch-echoes (RequestItem.table req) BatchOperation.clear s s' rs u e = echoes _ _ _ s' rs u e
  dispatch-echoes (RequestItem.table_rule req) BatchOperation.insert s s' rs u e =
      echoes _ _ _ s' rs u e
  dispatch-echoes (RequestItem.table_rule req) BatchOperation.delete s s' rs u e =
      echoes _ _ _ s' rs u e
  dispatch-echoes (RequestItem.stats req) BatchOperation.get s s' rs u e = echoes _ _ _ s' rs u e
  dispatch-echoes (RequestItem.stats req) BatchOperation.clear s s' rs u e = echoes _ _ _ s' rs u e
  dispatch-echoes RequestItem.server_status BatchOperation.get s s' rs u e =
      echoes ResponseItem.server_status BatchOperation.get
        (get_server_status c.start_wall c.start_mono c.now s) s' rs u e
  dispatch-echoes (RequestItem.server_config req) BatchOperation.get s s' rs u e =
      echoes ResponseItem.server_config BatchOperation.get (get_server_config req s) s' rs u e
  dispatch-echoes (RequestItem.server_config req) BatchOperation.set s s' rs u e =
      echoes ResponseItem.server_config BatchOperation.set (set_server_config req s) s' rs u e
  dispatch-echoes RequestItem.not_set op s s' rs u e = error_resp-Echo _ op s s' rs u e
  dispatch-echoes item op s s' rs u e = error_resp-Echo _ op s s' rs u e
