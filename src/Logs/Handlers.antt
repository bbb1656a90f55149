-- ===== src/Logs/Handlers.antt =====
-- logs.py: the handlers of the root logger after any number of calls.
use tqtk_price_streaming.Prelude.{◌≡◌, refl, ap, ◌∙◌, not, List, [], ◌∷◌, ◌++◌, keep}
use tqtk_price_streaming.Config.{ServiceConfig}
use tqtk_price_streaming.Logs.{
  Handler, tagged, other, is_tagged, Root, configure_logging, configure_all,
}

-- The handlers that the service did not install.
abbrev pub foreign : List Handler → List Handler
foreign = keep (λ h. not (is_tagged h))

foreign-then_tagged :
    (hs : List Handler) (config : ServiceConfig)
    → foreign (foreign hs ++ (tagged config.service_name ∷ [])) ≡ foreign hs
unfolding keep is_tagged
foreign-then_tagged [] config = refl
foreign-then_tagged (tagged s ∷ hs) config = foreign-then_tagged hs config
foreign-then_tagged (other n ∷ hs) config = ap (◌∷◌ (other n)) (foreign-then_tagged hs config)

-- However often logging is configured, the root logger ends with the handlers that were not
-- installed here, in their order, and one handler, of the last configuration, and with the last
-- level.
configure_all-handlers :
    (configs : List ServiceConfig) (last : ServiceConfig) (root : Root)
    → ((configure_all (configs ++ last ∷ []) root).handlers
        ≡ foreign root.handlers ++ (tagged last.service_name ∷ []))
      × ((configure_all (configs ++ last ∷ []) root).level ≡ last.log_level)
unfolding configure_all configure_logging
configure_all-handlers [] last root = (refl, refl)
configure_all-handlers (config ∷ configs) last root =
    let (handlers, level) = configure_all-handlers configs last (configure_logging config root) in
    (
      handlers
          ∙ ap (λ hs. hs ++ (tagged last.service_name ∷ []))
              (foreign-then_tagged root.handlers config),
      level,
    )
