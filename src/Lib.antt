-- ===== src/Lib.antt =====
-- A model of ngx_cpp_dev, a C++ library that wraps nginx's structures (ngxpp/) and a set of nginx
-- modules written with it (http/, legacy/, stream/), with the theorems that its parts are correct.
--
-- The wrappers hold a pointer to one of nginx's structures and change it in place. A method is here a
-- function on the structure, or a command on the state that it changes: it returns, throws the
-- library's exception with the changes made so far kept, or faults where the source reads through a
-- null or dangling pointer (Base/Run.antt). nginx itself is not under the repository: its structures
-- are records with the fields that the source names (Nginx.antt), and its functions are arguments of
-- the definitions that call them, with what nginx documents of them as hypotheses.
--
-- The parts, by file:
--   Base, Base/Int, Base/Run: numbers, lists, and the commands.
--   Exception: ngxpp/NgxException.hpp. `raise`, the overloads of `require`, `fail`.
--   Value, Conf: ngxpp/NgxValue.hpp and the configurations that inherit by it
--     (stream/discard/NdgStreamDiscardConf.hpp, legacy/shmem/NdgShmemConf.hpp,
--     legacy/subrequest/NdgSubrequestConf.hpp, legacy/upstream/NdgUpstreamConf.hpp).
--   Buf: ngxpp/NgxBuf.hpp. Addresses are numbers below 2 ^ 64 and the arithmetic on the pointers of a
--     buffer wraps; the end of a string, which lies in memory, is the plain sum of its address and its
--     length.
--   Memory: the links and buffers that chains are made of, by address; a read of an address that holds
--     nothing is a fault. Memory/Chains says when memory holds a chain.
--   Chain: ngxpp/NgxChain.hpp on that memory, so that two chains can share nodes and buffers.
--   NgxList, Headers: ngxpp/NgxList.hpp and ngxpp/NgxHeaders.hpp. A list is its parts.
--   NgxArray: ngxpp/NgxArray.hpp, with the null array.
--   Pool, Pool/Objects: ngxpp/NgxPool.hpp. Buffers and chain links go into Memory; of other objects an
--     allocation gives the address.
--   Filter: http/filter/NdgFilterHandler.hpp and http/filter/NdgFilterConf.hpp, a client of Headers,
--     NgxArray, Pool and Memory: `header_filter` adds headers and grows the content length,
--     `body_filter` puts the footer into the chain of buffers. The context of a request counts the
--     passes: 0 before the headers, 1 before the footer, 2 after it.
--   NgxString: the test for the empty string of ngxpp/NgxString.hpp, and the type of lengths.
--     NgxString/Bytes has the members that read the bytes.
--   Response: the sending half of ngxpp/NgxRequest.hpp, and the method and body of a request.
--   Echo: http/echo/NdgEchoHandler.hpp, a client of Response.
--   Event: ngxpp/NgxEvent.hpp, the timer of an event.
--   StreamDiscard: the read handler of stream/discard/NdgStreamDiscardHandler.hpp, a client of Event and
--     of the configuration, with `recv` of ngxpp/NgxConnection.hpp. StreamDiscard/Process has the
--     handler that installs it and the events that nginx delivers to it.
--   NgxDigest: ngxpp/NgxDigest.hpp around nginx's functions on the context of a digest.
--   NgxThread: ngxpp/NgxThread.hpp around nginx's thread pools.
--   Upstream: the request of ngxpp/NgxUpstream.hpp and the callbacks of
--     legacy/upstream/NdgUpstreamHandler.hpp, clients of Pool, Buf and Chain.
--   Timer: the pool of timer events of ngxpp/NgxTimer.hpp, with its states as a relation, and how an
--     event fires.
--   Clock: the difference of two times of ngxpp/NgxClock.hpp.
--   Variable: ngxpp/NgxVariable.hpp, how a variable is set and read.
--   Variable/Names, Variables: how a module adds variables, and those of
--     http/variables/NdgVariablesHandler.hpp, with ngxpp/NgxDatetime.hpp.
--   NgxFilter: ngxpp/NgxFilter.hpp and ngxpp/NgxStreamFilter.hpp, nginx's chains of filters and the static
--     variables in which modules save the next one.
--   NgxModule: ngxpp/NgxModule.hpp, the configurations and contexts of a module by its index.
--   NgxConfig: ngxpp/NgxConfig.hpp, the bits that count a command's arguments.
--   NgxScript: ngxpp/NgxScript.hpp and ngxpp/NgxComplexValue.hpp around nginx's compiler of strings.
--   NgxHttpModule: ngxpp/NgxHttpModule.hpp, the registration of handlers, with two modules that use it
--     (http/test/NdgTestHandler.hpp and legacy/shmem/NdgShmemHandler.hpp).
--   NgxQueue: ngxpp/NgxQueue.hpp over the interface of nginx's rings, which are chains of links in both
--     directions (NgxQueue/Links, NgxQueue/Ring, NgxQueue/Merged).
--   NgxRbtree: ngxpp/NgxRbtree.hpp, the traversal, with fuel for the depth.
--   Response/Special: the rest of ngxpp/NgxRequest.hpp.
--   Upstream/Start: the helper of ngxpp/NgxUpstream.hpp that starts an upstream, and the handler that
--     uses it.
--   SubRequest, LegacySubrequest: ngxpp/NgxSubRequest.hpp and its client
--     legacy/subrequest/NdgSubrequestHandler.hpp.
--   LegacyFooter, LegacyEcho: legacy/footer/NdgFooterHandler.hpp and legacy/echo/NdgEchoHandler.hpp, the
--     modules from which http/filter and http/echo were made; they share the definitions of Filter and
--     Echo where the source is the same.
--   DataHook: legacy/datahook/NdgDataHookHandler.hpp, filters that keep a subrequest's response.
--   LoadBalance: ngxpp/NgxLoadBalance.hpp and legacy/loadbalance/NdgLoadBalanceHandler.hpp.
--   StreamTime: stream/time/NdgStreamTimeHandler.hpp, a client of Event and Pool, with
--     ngxpp/NgxStreamSession.hpp.
--   NgxStreamModule: ngxpp/NgxStreamModule.hpp, the same for stream modules.
--   Directives: the tables of commands, contexts and hooks of every module (the Ndg*Init.hpp files of
--     http/, legacy/ and stream/), with the setters of their own in Directives/Setters.
--   HttpTest: the timers, the array, the list and the buffers of http/test/NdgTestHandler.hpp.
--   Tests: each theorem on a small concrete input.
--
-- Loops over linked structures run on fuel and say when it is used up. A theorem on such a loop asks
-- for more fuel than there are nodes or elements and shows that the loop returns. Loops over arrays
-- are structural.
--
-- Not modelled: the contents of buffers and strings, except the two bytes that Upstream reads and those
-- that NgxString/Bytes compares; logging, input and output; the types that templates compute;
-- references to nginx's global variables. A byte range is its address and its length.
pub mod Base
pub mod Nginx
pub mod Exception
pub mod Value
pub mod Conf
pub mod Buf
pub mod Memory
pub mod Chain
pub mod NgxList
pub mod Headers
pub mod NgxArray
pub mod Pool
pub mod NgxString
pub mod Filter
pub mod Event
pub mod StreamDiscard
pub mod Response
pub mod Echo
pub mod Upstream
pub mod Timer
pub mod Clock
pub mod Variable
pub mod NgxDigest
pub mod NgxThread
pub mod NgxFilter
pub mod NgxConfig
pub mod Directives
pub mod NgxModule
pub mod SubRequest
pub mod Variables
pub mod NgxScript
pub mod LegacyEcho
pub mod HttpTest
pub mod NgxStreamModule
pub mod NgxHttpModule
pub mod NgxRbtree
pub mod NgxQueue
pub mod LegacySubrequest
pub mod LegacyFooter
pub mod StreamTime
pub mod DataHook
pub mod LoadBalance
pub mod Tests
