-- ===== src/Lib.antt =====
-- The client library of the Nacos service registry and configuration server: the naming client, the
-- configuration client with its encryption, and, under both, the RPC client, the list of servers, the
-- logins and signatures, and the configuration that a client is made from.
--
-- Strings are lists of bytes, numbers native and not negative, times counted from a fixed start. A Go map is
-- a list of entries (Common.Maps), whose order stands for the arbitrary order of `range`; the map of
-- clients/cache/concurrent_map.go, a copy of another project's library, is the interface
-- ConcurrentMap with its documented behaviour, met by a flat dictionary. Shared objects are indices
-- into a list: heartbeats (Naming.Beat) and configuration listeners (Config.Client). What another
-- goroutine or the network does is an argument: the answers of the server, the time, random draws,
-- and in the RPC client what happens during a call or a pause.
--
-- Parts, with the code that they are about:
--   Util             util/common.go, util/semaphore.go: cache keys, durations, the semaphore; and the
--                    functions of Go's strings and strconv that the code calls.
--   Model            model/service.go: Instance, Service, and their comparison.
--   Naming           clients/naming_client:
--     Selector       naming_cache/subscribe_callback_wrapper.go: NewClusterSelector, SelectInstance.
--     Callbacks      naming_cache/subscribe_callback.go: AddCallbackFunc, RemoveCallbackFunc.
--     Holder         naming_cache/service_info_holder.go: ProcessService and the change test; in
--                    Order whole histories of it.
--     Grpc           naming_grpc: the requests, and the redo of a new connection; Wanted is the
--                    abstract view of what is to be redone.
--     Push           naming_http/push_receiver.go: the pushes over UDP; Served describes what becomes of
--                    them.
--     Beat           naming_http: heartbeats, RegisterInstance and DeregisterInstance over HTTP.
--     Chooser        naming_instance_chooser.go: newChooser and pick. A weight counts thousandths.
--     Choice         naming_client.go: the parameters, and the choice of healthy instances.
--     Updater        service_info_updater.go: the periodic queries and their goroutines, as events.
--     Client         naming_client.go and naming_proxy_delegate.go: the client's operations.
--     Closing        CloseClient, ServerHealthy and GetAllServicesInfo, with the proxies under them.
--   Server           common/nacos_server/nacos_server.go: GetNextServer, refreshServerSrvIfNeed,
--                    ReqApi and ReqConfigApi; in Http a new list and the HTTP requests.
--   Auth             common/security/nacos_auth_client.go: login, Login and AutoRefresh.
--   Security         common/security, but for the login with a user name, which is Auth:
--     Ram            ram_credential_provider.go: MatchProvider, and in Init the rest of a provider;
--     Signature      signature_util.go: the signing keys and signatures;
--     Injector       resource_injector.go: the headers of a signed request;
--     Client         ram_auth_client.go: the client over the providers;
--     Proxy          security_proxy.go: the proxy over both kinds of login;
--     Resources      what a request is signed for.
--   Factory          clients/client_factory.go and clients/nacos_client/nacos_client.go: setConfig.
--   Rpc              common/remote/rpc/rpc_client.go: Start, reconnect, healthCheck, Request, Shutdown;
--     Loop           the loop of reconnect, and healthCheck;
--     Labels         the labels and CreateClient;
--     Listeners      the listeners of a connection;
--     Invariant      the operations as a step relation;
--     Grpc           grpc_client.go: serverCheck and connectToServer; in Stream the requests and the
--                    errors that come over the stream, and the handlers of the requests.
--   Config           clients/config_client, with what it stands on:
--     Disk           clients/cache/disk_cache.go: snapshots and failover files.
--     Filter         common/filter/config_filter.go: the chain of filters.
--     Encryption     common/filter/config_encryption_filter.go and common/encryption/handler.go.
--     Base64, Aes    common/encoding/encryption.go, common/encryption/aes_ecb_pkcs5padding.go.
--     Kms            common/encryption/kms_plugins.go: the three plugins of the key service.
--     Client         config_client.go and config_proxy.go: GetConfig and the query under it.
--     Publish        config_client.go: PublishConfig and DeleteConfig.
--     Events         config_proxy.go and config_connection_event_listener.go: news of the server.
--     Listen         config_client.go: ListenConfig, CancelListenConfig, and the listening rounds.
--     Closing        config_client.go and config_proxy.go: CloseClient and createRpcClient.
--     Search         config_client.go and config_proxy.go: SearchConfig.
--     Limiter        limiter.go: IsLimited.
--
-- The naming client calls the holder and the two proxies through its delegate; the gRPC proxy and
-- the configuration client send through the RPC client, which takes its servers from the list.
--
-- Bounds: the counter of GetNextServer is the bit pattern of an int32, with its overflow; other
-- counters are not bounded. `sort.Sort` is the insertion sort that Go uses up to 12 elements.
-- Recursion on fuel: Request has its 3 tries; Start has its 3 tries; the loops of
-- ReqApi make as many rounds as the code, 3 for one server and otherwise one for each; `strconv.Itoa`
-- has more fuel than digits; serverCheck has its 31 tries. The loop of reconnect, which has no bound, runs over the list of
-- what its rounds meet, and says when the list ends before it does.
--
-- Not modelled: the messages of gRPC and their conversion, the HTTP agent, the clients of the key
-- service, the files of TLS, files other than the snapshots, JSON, logging, monitoring,
-- setters of single options, and generated code; inner/uuid and
-- clients/cache/concurrent_map.go are copies of other projects' libraries. White space is that of
-- ASCII, and texts are UTF-8, so that the conversions of common/encoding between strings and bytes
-- change nothing. The MD5 function, the token bucket of a limiter, the block cipher under AES, HMAC,
-- the key service, the environment, gzip and the cloud's libraries are parameters.
--
-- Where the models are coarser than the code: ProcessService loads the old service and stores the new one
-- without a lock, and is one step in Naming.Holder, so that calls of it that overlap are not
-- covered; a nil slice or map, which reflect.DeepEqual tells from an empty one, is an empty list, so
-- that a service whose hosts go from nil to an empty slice counts as unchanged in the model alone;
-- strconv.Atoi reads a leading +, but negative numbers are errors; of several plugins whose names
-- are equally long, getPluginByDataIdPrefix finds the first of the list, where each call of the code
-- may find another one.
pub mod Common
pub mod ConcurrentMap
pub mod Util
pub mod Model
pub mod Naming
pub mod Server
pub mod Factory
pub mod Rpc
pub mod Config
pub mod Auth
pub mod Security
pub mod Tests
